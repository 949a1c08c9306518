-- ===== src/Device/Nonces/Replays.antt =====
-- A client's nonce is accepted once in the lifetime of a connection, and the map stays bounded.
use multi_agent_desk.Prelude.{
  ℕ, ◌+◌, ◌-◌, ◌≤◌, ◌≡◌, refl, inl, inr, Bool, true, false, ◌||◌, ◌&&◌, List, [], ◌∷◌, ltb, leb,
  length, Text, text_eq, text_eq_iff, All, arith, Bool-cases,
}
use multi_agent_desk.Device.Nonces.{
  connection_lifetime, max_nonces, Seen, nonce_key, drop_old, has_key, mark_key, mark_nonce,
}

pub record Hello : Type 0 where
  pub now : ℕ
  pub client_id : Text
  pub nonce : Text

-- The map after handshakes at given times.
unfoldable pub run : List Hello → List Seen → List Seen
run [] seen = seen
run (h ∷ hellos) seen = run hellos (mark_nonce h.now h.client_id h.nonce seen).1

-- An entry of this key that is not older than `at`.
unfoldable pub has_since : ℕ → Text → List Seen → Bool
has_since at key [] = false
has_since at key (s ∷ rest) = (text_eq s.key key && leb at s.at) || has_since at key rest

drop-has_since :
    (now at : ℕ) (key : Text) (seen : List Seen)
    → now ≤ at + connection_lifetime
    → has_since at key seen ≡ true
    → has_since at key (drop_old now seen) ≡ true
unfolding drop_old has_since
drop-has_since now at key [] h g = g
drop-has_since now at key (s ∷ rest) h g =
    elim (Bool-cases (ltb connection_lifetime (now - s.at))) [
      | inl old ↦ rw old (drop-has_since now at key rest h (ground arith))
      | inr kept ↦ let later = drop-has_since now at key rest h in rw kept (ground arith)
    ]

has_since-has_key :
    (at : ℕ) (key : Text) (seen : List Seen)
    → has_since at key seen ≡ true
    → has_key key seen ≡ true
unfolding has_since has_key
has_since-has_key at key [] h = h
has_since-has_key at key (s ∷ rest) h = ground (arith, has_since-has_key at key rest)

mark-has_since :
    (h : Hello) (at : ℕ) (key : Text) (seen : List Seen)
    → h.now ≤ at + connection_lifetime
    → has_since at key seen ≡ true
    → has_since at key (mark_nonce h.now h.client_id h.nonce seen).1 ≡ true
unfolding mark_nonce mark_key has_since
mark-has_since h at key seen now g =
    let kept = drop-has_since h.now at key seen now g in ground arith

run-has_since :
    (hellos : List Hello) (at : ℕ) (key : Text) (seen : List Seen)
    → All (λ h. h.now ≤ at + connection_lifetime) hellos
    → has_since at key seen ≡ true
    → has_since at key (run hellos seen) ≡ true
unfolding run
run-has_since [] at key seen now g = g
run-has_since (h ∷ hellos) at key seen (now, later) g =
    run-has_since hellos at key (mark_nonce h.now h.client_id h.nonce seen).1 later
      (mark-has_since h at key seen now g)

mark-fresh :
    (at : ℕ) (client_id nonce : Text) (seen seen' : List Seen)
    → mark_nonce at client_id nonce seen ≡ (true, seen')
    → has_since at (nonce_key client_id nonce) seen' ≡ true
unfolding mark_nonce mark_key has_since
mark-fresh at client_id nonce seen seen' accepted =
    let key = nonce_key client_id nonce in
    let itself = (text_eq_iff key key).1 refl in
    let new : seen' ≡ record { key = key; at = at } ∷ drop_old at seen = ground arith in
    rw new (ground arith)

-- Once a client's nonce is accepted, it is refused for the lifetime of a connection, whatever
-- handshakes come between.
pub nonce_once :
    (at : ℕ) (client_id nonce : Text) (seen seen' : List Seen) (hellos : List Hello) (now : ℕ)
    → mark_nonce at client_id nonce seen ≡ (true, seen')
    → All (λ h. h.now ≤ at + connection_lifetime) hellos
    → now ≤ at + connection_lifetime
    → (mark_nonce now client_id nonce (run hellos seen')).0 ≡ false
unfolding mark_nonce mark_key
nonce_once at client_id nonce seen seen' hellos now accepted times time =
    let key = nonce_key client_id nonce in
    let fresh = mark-fresh at client_id nonce seen seen' accepted in
    let there = has_since-has_key at key (drop_old now (run hellos seen')) (
      drop-has_since now at key (run hellos seen') time
        (run-has_since hellos at key seen' times fresh)) in
    ground arith

length-drop_old : (now : ℕ) (seen : List Seen) → length (drop_old now seen) ≤ length seen
unfolding drop_old
length-drop_old now [] = omega arith
length-drop_old now (s ∷ rest) = let r = length-drop_old now rest in ground arith

-- The map never holds more than 4096 nonces, whoever connects.
pub nonces_bounded :
    (hellos : List Hello) (seen : List Seen)
    → length seen ≤ max_nonces
    → length (run hellos seen) ≤ max_nonces
unfolding run mark_nonce mark_key
nonces_bounded [] seen h = h
nonces_bounded (h ∷ hellos) seen room =
    let dropped = length-drop_old h.now seen in
    nonces_bounded hellos (mark_nonce h.now h.client_id h.nonce seen).1 (ground arith)
