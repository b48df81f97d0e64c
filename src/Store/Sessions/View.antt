-- ===== src/Store/Sessions/View.antt =====
-- The table of the sessions as a map from hashes of tokens to sessions.
use reddotrelay.Prelude.{
  ℕ, ◌≡◌, ◌∙◌, refl, sym, ap, subst, Bool, true, false, not, List, [], ◌∷◌, Option, none, some,
  ◌==◌, list_eq, arith, Bool-cases, inl, inr, any, map, Unique, Unique-map, Unique-select,
  if◌then◌else◌,
}
use reddotrelay.Store.Sessions.{
  Session, has_token, save_ui_session, ui_session, delete_ui_session, is_stale,
  delete_expired_ui_sessions,
}

-- What a reader of the table sees.
abbrev pub view : List Session → List ℕ → Option Session
view sessions hash = ui_session hash sessions

-- What the operations mean for the map.
abbrev pub saved : Session → (List ℕ → Option Session) → List ℕ → Option Session
saved r m hash =
    if list_eq ◌==◌ hash r.token_hash
    then some (elim (m r.token_hash) [ none ↦ r | some s ↦ record s { last_seen = r.last_seen } ])
    else m hash

abbrev pub deleted : List ℕ → (List ℕ → Option Session) → List ℕ → Option Session
deleted token m hash = if list_eq ◌==◌ hash token then none else m hash

abbrev pub unless_stale : ℕ → ℕ → Option Session → Option Session
unless_stale idle absolute none = none
unless_stale idle absolute (some s) = if is_stale idle absolute s then none else some s

abbrev pub expired : ℕ → ℕ → (List ℕ → Option Session) → List ℕ → Option Session
expired idle absolute m hash = unless_stale idle absolute (m hash)

abbrev pub same_token : Session → Session → Bool
same_token a b = has_token a.token_hash b

list_eq_sound : (a b : List ℕ) → list_eq ◌==◌ a b ≡ true → a ≡ b
list_eq_sound [] [] h = refl
list_eq_sound [] (y ∷ b) h = cc
list_eq_sound (x ∷ a) [] h = cc
list_eq_sound (x ∷ a) (y ∷ b) h =
    let i = list_eq_sound a b (ground (arith)) in let e = heads in rw (e, i) refl
  where
    heads : x ≡ y
    heads = ground arith

pub list_eq_refl : (a : List ℕ) → list_eq ◌==◌ a a ≡ true
list_eq_refl [] = refl
list_eq_refl (x ∷ a) = ground (arith, list_eq_refl a)

list_eq_comm : (a b : List ℕ) → list_eq ◌==◌ a b ≡ list_eq ◌==◌ b a
list_eq_comm [] [] = refl
list_eq_comm [] (y ∷ b) = refl
list_eq_comm (x ∷ a) [] = refl
list_eq_comm (x ∷ a) (y ∷ b) = ground (arith, list_eq_comm a b)

ui_session-cons :
    (hash : List ℕ) (s : Session) (ss : List Session)
    → ui_session hash (s ∷ ss) ≡ (if has_token hash s then some s else ui_session hash ss)
unfolding ui_session
ui_session-cons hash s ss = refl

-- Where no row has the hash, nothing is found.
not_found :
    (hash : List ℕ) (ss : List Session)
    → any (has_token hash) ss ≡ false
    → ui_session hash ss ≡ none
unfolding ui_session
not_found hash [] n = refl
not_found hash (s ∷ ss) n = ground (arith, not_found hash ss)

seen : ℕ → Session → Session
seen at s = record s { last_seen = at }

touch : List ℕ → ℕ → List Session → List Session
touch token at ss = map (λ s. if has_token token s then seen at s else s) ss

-- Another hash is not touched, and the row of the hash itself is.
touch-other :
    (token hash : List ℕ) (at : ℕ) (ss : List Session)
    → list_eq ◌==◌ hash token ≡ false
    → ui_session hash (touch token at ss) ≡ ui_session hash ss
unfolding ui_session touch seen
touch-other token hash at [] n = refl
touch-other token hash at (s ∷ ss) n = elim (Bool-cases (has_token token s)) [
  | inr m ↦ let i = touch-other token hash at ss n in ground (arith, i)
  | inl m ↦
      let o = subst (λ t. list_eq ◌==◌ hash t ≡ false) (list_eq_sound token s.token_hash m) n in
      let i = touch-other token hash at ss n in ground (arith, i, o)
]

touch-same :
    (token : List ℕ) (at : ℕ) (ss : List Session)
    → any (has_token token) ss ≡ true
    → ui_session token (touch token at ss) ≡ elim (ui_session token ss) as (λ _. Option Session) [
      | none ↦ none
      | some s ↦ some (seen at s)
    ]
unfolding ui_session touch seen
touch-same token at [] p = refl
touch-same token at (s ∷ ss) p = elim (Bool-cases (has_token token s)) [
  | inl m ↦ ground (arith)
  | inr m ↦ let i = touch-same token at ss (ground arith) in ground (arith, i)
]

found :
    (token : List ℕ) (ss : List Session)
    → any (has_token token) ss ≡ true
    → (s : Session) × (ui_session token ss ≡ some s)
unfolding ui_session
found token [] p = cc
found token (s ∷ ss) p = elim (Bool-cases (has_token token s)) [
  | inl m ↦ (s, rw m refl)
  | inr m ↦ let (t, e) = found token ss (ground arith) in (t, rw m e)
]

save_ui_session-view :
    (r : Session) (ss : List Session) (hash : List ℕ)
    → view (save_ui_session r ss) hash ≡ saved r (view ss) hash
unfolding save_ui_session touch seen
save_ui_session-view r ss hash = elim (Bool-cases (any (has_token r.token_hash) ss)) [
  | inr n ↦ rw (n, not_found r.token_hash ss n) (ui_session-cons hash r ss)
  | inl p ↦ elim (Bool-cases (list_eq ◌==◌ hash r.token_hash)) [
    | inr d ↦ rw (p, d) (touch-other r.token_hash hash r.last_seen ss d)
    | inl m ↦
        let (s, e) = found r.token_hash ss p in
        rw (p, m, e, list_eq_sound hash r.token_hash m)
          (touch-same r.token_hash r.last_seen ss p ∙ rw e refl)
  ]
]

pub delete_ui_session-view :
    (token : List ℕ) (ss : List Session) (hash : List ℕ)
    → view (delete_ui_session token ss) hash ≡ deleted token (view ss) hash
unfolding delete_ui_session ui_session
delete_ui_session-view token [] hash = ground arith
delete_ui_session-view token (s ∷ ss) hash = elim (Bool-cases (has_token token s)) [
  | inl m ↦
      let i = delete_ui_session-view token ss hash in
      let e = list_eq_sound token s.token_hash m in
      rw (m, i)
        (rw (sym e)
          (elim (Bool-cases (list_eq ◌==◌ hash token)) [ inl h ↦ rw h refl | inr h ↦ rw h refl ]))
  | inr m ↦
      let i = delete_ui_session-view token ss hash in
      elim (Bool-cases (list_eq ◌==◌ hash token)) [
        | inl h ↦
            let d =
              subst (λ t. list_eq ◌==◌ t s.token_hash ≡ false) (sym (list_eq_sound hash token h))
                m in
            ground (arith, i, d)
        | inr h ↦ ground (arith, i)
      ]
]

delete_expired_ui_sessions-view :
    (idle absolute : ℕ) (ss : List Session) (hash : List ℕ)
    → Unique same_token ss
    → view (delete_expired_ui_sessions idle absolute ss) hash ≡ expired idle absolute (view ss) hash
unfolding delete_expired_ui_sessions ui_session
delete_expired_ui_sessions-view idle absolute [] hash u = refl
delete_expired_ui_sessions-view idle absolute (s ∷ ss) hash u =
    elim (Bool-cases (has_token hash s)) [
      | inr m ↦
          let i = delete_expired_ui_sessions-view idle absolute ss hash u.1 in
          elim (Bool-cases (is_stale idle absolute s)) [
            | inl st ↦ rw (st, m) i
            | inr st ↦ rw (st, m) i
          ]
      | inl m ↦
          let n =
            subst (λ t. any (has_token t) ss ≡ false) (sym (list_eq_sound hash s.token_hash m))
              u.0 in
          let i = delete_expired_ui_sessions-view idle absolute ss hash u.1 in
          elim (Bool-cases (is_stale idle absolute s)) [
            | inl st ↦
                rw (st, m) (rw st (i ∙ ap (unless_stale idle absolute) (not_found hash ss n)))
            | inr st ↦ rw (st, m) (rw st refl)
          ]
    ]

-- The operations on this table, against their meaning.
pub record Refines (ss : List Session) : Type 0 where
  pub save :
      (r : Session) (hash : List ℕ) → view (save_ui_session r ss) hash ≡ saved r (view ss) hash
  pub delete :
      (token hash : List ℕ) → view (delete_ui_session token ss) hash ≡ deleted token (view ss) hash
  pub expire :
      (idle absolute : ℕ) (hash : List ℕ)
      → view (delete_expired_ui_sessions idle absolute ss) hash
        ≡ expired idle absolute (view ss) hash
  pub save_unique : (r : Session) → Unique same_token (save_ui_session r ss)
  pub delete_unique : (token : List ℕ) → Unique same_token (delete_ui_session token ss)
  pub expire_unique :
      (idle absolute : ℕ) → Unique same_token (delete_expired_ui_sessions idle absolute ss)

save_ui_session-Unique :
    (r : Session) (ss : List Session)
    → Unique same_token ss
    → Unique same_token (save_ui_session r ss)
unfolding save_ui_session
save_ui_session-Unique r ss u = elim (Bool-cases (any (has_token r.token_hash) ss)) [
  | inr n ↦ rw n (n, u)
  | inl p ↦ rw p (
      Unique-map same_token
        (λ s. if has_token r.token_hash s then record s { last_seen = r.last_seen } else s)
        (λ a b. ground arith) (λ a b. ground arith) ss u)
]

-- The sessions refine a map from hashes of tokens to sessions: what saving, deleting and expiring do to
-- the result of every lookup, where the hashes of the table are unique; and they stay so.
pub sessions-Refines : (ss : List Session) → Unique same_token ss → Refines ss
unfolding delete_ui_session delete_expired_ui_sessions
sessions-Refines ss u = record {
  save = λ r hash. save_ui_session-view r ss hash;
  delete = λ token hash. delete_ui_session-view token ss hash;
  expire = λ idle absolute hash. delete_expired_ui_sessions-view idle absolute ss hash u;
  save_unique = λ r. save_ui_session-Unique r ss u;
  delete_unique = λ token. Unique-select same_token (λ s. not (has_token token s)) ss u;
  expire_unique =
      λ idle absolute. Unique-select same_token (λ s. not (is_stale idle absolute s)) ss u;
}
