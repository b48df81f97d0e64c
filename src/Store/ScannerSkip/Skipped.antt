-- ===== src/Store/ScannerSkip/Skipped.antt =====
-- A skip, from the listener that is read to the revision that is advanced.
use reddotrelay.Prelude.{
  ℕ, ◌+◌, ◌≤◌, ◌≡◌, refl, subst, Bool, false, not, ◌||◌, List, ◌∷◌, Option, none, some, String,
  Result, ok, err, ◌==◌, ltb, arith, if◌then◌else◌, Bool-cases, inl, inr, find?, any, OnDone,
}
use reddotrelay.Store.Db.{Db, max_int64}
use reddotrelay.Store.Invariant.{IsValid}
use reddotrelay.Store.Events.{on_chain}
use reddotrelay.Store.ScannerSkip.{
  Listener, ListenerAudit, SkipAudit, Configured, SkipError, Skip, skip_conflict, no_listener,
  bad_audit, is_active_on, read_position, is_other_branch, move_position, resume_listener,
  skip_audit, write_skip, skip_listener, skip_found, valid_skip, listener_audit_row,
  valid_listener_audit, mutate_rpc_listeners, skip_scanner_to_head, has_listener_id,
}
use reddotrelay.Store.ScannerSkip.Advances.{
  Moved, Skipped, Written, Checked, move_position-Moved, read_position-Checked,
}

Post : Skip → Configured → SkipAudit × Configured → Type 0
Post s cfg r = Written s cfg r.0 r.1

write_skip-Written :
    (s : Skip) (l : Listener) (p : Option ℕ × String × ℕ) (expected now : ℕ) (cfg : Configured)
    → IsValid cfg.tables.db
    → any (is_active_on s.target.chain_id) cfg.tables.jobs ≡ false
    → Checked s.previous
        (find? (on_chain s.target.chain_id) cfg.tables.db.checkpoints)
        s.target.number
        p
    → OnDone (Post s cfg) (write_skip s l p expected now cfg)
unfolding write_skip Post skip_audit
write_skip-Written s l p expected now cfg v n c =
    elim (Bool-cases (any (is_other_branch s.target) cfg.tables.db.events)) [
      | inl e ↦ rw e tt
      | inr e ↦ rw e (
          go (move_position s.target l.reorg_depth cfg.tables.db)
            (move_position-Moved s.target l.reorg_depth cfg.tables.db v))
    ]
  where
    go :
        (r : Result SkipError Db)
        → OnDone (Moved s.target cfg.tables.db) r
        → OnDone
            (λ (r : SkipAudit × Configured). Written s cfg r.0 r.1)
            (elim r as (λ _. Result SkipError (SkipAudit × Configured)) [
              | err e ↦ err e
              | ok db ↦ ok (
                skip_audit s p (expected + 1) now,
                record cfg {
                  tables = record cfg.tables { db = db };
                  listeners = resume_listener s.listener_id now cfg.listeners;
                  skips = skip_audit s p (expected + 1) now ∷ cfg.skips;
                },
              )
            ])
    go (err e) m = tt
    go (ok db) m = record {
      moved = m;
      previewed = c.same;
      forward = c.forward;
      first_block = c.first_block;
      jobs = refl;
      none_active = n;
    }

skip_listener-Written :
    (s : Skip) (l : Listener) (expected now : ℕ) (cfg : Configured)
    → IsValid cfg.tables.db
    → OnDone (Post s cfg) (skip_listener s l expected now cfg)
unfolding skip_listener
skip_listener-Written s l expected now cfg v =
    elim (Bool-cases (
      not l.paused || not (l.chain_id == s.target.chain_id) || ltb s.target.number l.start_block)) [
        | inl e ↦ rw e tt
        | inr e ↦ elim (Bool-cases (any (is_active_on l.chain_id) cfg.tables.jobs)) [
          | inl a ↦ rw (e, a) tt
          | inr a ↦
              rw (e, a)
                (go
                  (read_position s.previous (find? (on_chain l.chain_id) cfg.tables.db.checkpoints)
                    s.target.number l.start_block)
                  (λ p f. checked e a p f))
        ]
      ]
  where
    Ready : Option ℕ × String × ℕ → Type 0
    Ready p =
        (any (is_active_on s.target.chain_id) cfg.tables.jobs ≡ false)
        × Checked s.previous (find? (on_chain s.target.chain_id) cfg.tables.db.checkpoints)
            s.target.number p

    checked :
        (not l.paused || not (l.chain_id == s.target.chain_id) || ltb s.target.number l.start_block)
          ≡ false
        → any (is_active_on l.chain_id) cfg.tables.jobs ≡ false
        → (p : Option ℕ × String × ℕ)
        → read_position s.previous
            (find? (on_chain l.chain_id) cfg.tables.db.checkpoints)
            s.target.number
            l.start_block
          ≡ some p
        → Ready p
    checked e a p f =
        let (same, within) = both e in
        subst
          (λ c.
            (any (is_active_on c) cfg.tables.jobs ≡ false)
            × Checked s.previous (find? (on_chain c) cfg.tables.db.checkpoints) s.target.number p)
          same
          (
            a,
            read_position-Checked s.previous (find? (on_chain l.chain_id) cfg.tables.db.checkpoints)
                s.target.number l.start_block p within f,
          )
      where
        both :
            (not l.paused
                || not (l.chain_id == s.target.chain_id)
                || ltb s.target.number l.start_block)
              ≡ false
            → (l.chain_id ≡ s.target.chain_id) × (l.start_block ≤ s.target.number)
        both e = ground arith

    go :
        (o : Option (Option ℕ × String × ℕ))
        → ((p : Option ℕ × String × ℕ) → o ≡ some p → Ready p)
        → OnDone (Post s cfg) (elim o as (λ _. Result SkipError (SkipAudit × Configured)) [
          | none ↦ err skip_conflict
          | some p ↦ write_skip s l p expected now cfg
        ])
    go none k = tt
    go (some p) k = write_skip-Written s l p expected now cfg v (k p refl).0 (k p refl).1

skip_found-Written :
    (s : Skip) (expected now : ℕ) (cfg : Configured)
    → IsValid cfg.tables.db
    → OnDone (Post s cfg) (skip_found s expected now cfg)
unfolding skip_found
skip_found-Written s expected now cfg v = go (find? (has_listener_id s.listener_id) cfg.listeners)
  where
    go :
        (o : Option Listener)
        → OnDone (Post s cfg) (elim o as (λ _. Result SkipError (SkipAudit × Configured)) [
          | none ↦ err no_listener
          | some l ↦ skip_listener s l expected now cfg
        ])
    go none = tt
    go (some l) = skip_listener-Written s l expected now cfg v

module _ (decode_hex : String → Option (List ℕ)) (hex_to_hash : String → ℕ)
    (valid_config_id : String → Bool) where
  -- A skip that succeeds moves the checkpoint of the chain to the target, forward from the position that
  -- was previewed, where the chain had one; it starts no later than the target, finds no active
  -- backfill of the chain, and advances the revision that was expected by one. The events, the
  -- deliveries and the jobs stay as they are, and the tables valid, where they were.
  pub skip_scanner_to_head-Skipped :
      (s : Skip) (expected now : ℕ) (cfg : Configured)
      → IsValid cfg.tables.db
      → OnDone
          (λ (r : SkipAudit × Configured). Skipped s expected cfg r.0 r.1)
          (skip_scanner_to_head decode_hex hex_to_hash valid_config_id s expected now cfg)
  unfolding skip_scanner_to_head mutate_rpc_listeners Post
  skip_scanner_to_head-Skipped s expected now cfg v =
      elim (Bool-cases (valid_skip decode_hex hex_to_hash valid_config_id s)) [
        | inr e ↦ rw e tt
        | inl e ↦ elim (Bool-cases (ltb max_int64 expected)) [
          | inl b ↦ rw (e, b) tt
          | inr b ↦ elim (Bool-cases (cfg.revision == expected)) [
            | inr r ↦ rw (e, b, r) tt
            | inl r ↦
                rw (e, b, r)
                  (go (ground arith) (skip_found s expected now cfg)
                    (skip_found-Written s expected now cfg v))
          ]
        ]
      ]
    where
      row : ListenerAudit
      row = listener_audit_row s.actor s.listener_id cfg.revision now

      go :
          cfg.revision ≡ expected
          → (r : Result SkipError (SkipAudit × Configured))
          → OnDone (λ (r : SkipAudit × Configured). Written s cfg r.0 r.1) r
          → OnDone
              (λ (r : SkipAudit × Configured). Skipped s expected cfg r.0 r.1)
              (elim r as (λ _. Result SkipError (SkipAudit × Configured)) [
                | err e ↦ err e
                | ok (a, cfg') ↦
                    if not (valid_listener_audit decode_hex hex_to_hash valid_config_id row)
                      || ltb max_int64 (cfg.revision + 1)
                    then err bad_audit
                    else ok (
                      a,
                      record cfg' {
                        revision = cfg.revision + 1;
                        listener_audit = row ∷ cfg'.listener_audit;
                      },
                    )
              ])
      go q (err e) w = tt
      go q (ok (a, cfg')) w =
          elim (Bool-cases (
            not (valid_listener_audit decode_hex hex_to_hash valid_config_id row)
            || ltb max_int64 (cfg.revision + 1))) [
              | inl e ↦ rw e tt
              | inr e ↦ rw e (record {
                moved = w.moved;
                previewed = w.previewed;
                forward = w.forward;
                first_block = w.first_block;
                jobs = w.jobs;
                none_active = w.none_active;
                at_revision = q;
                next_revision = refl;
              })
            ]
