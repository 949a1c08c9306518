-- ===== src/Device/Json/Accepted.antt =====
-- Reading the tokens of a value succeeds, so exactly those of a value without repeated keys are
-- accepted.
use multi_agent_desk.Prelude.{
  ℕ, suc, zero, ◌+◌, ◌≤◌, ◌<◌, ◌≡◌, ◌↔◌, refl, true, false, Option, some, List, [], ◌∷◌, length,
  arith,
}
use multi_agent_desk.Device.Json.{
  Token, Reading, more, seen_key, closes_object, closes_array, consume, at_end, validate_json,
}
use multi_agent_desk.Device.Json.Values.{
  Sort, sort, Json, plain, text, array, object, no_elements, element, no_members, member, print,
  distinct, keys, consume-Read,
}

-- The fuel that reading a printed value takes.
need : {s : Sort} → Json s → ℕ
need plain = 1
need (text t) = 1
need (array e) = 1 + need e
need (object m) = 1 + need m
need no_elements = 1
need (element v e) = 1 + (need v + need e)
need no_members = 1
need (member k v m) = 1 + (need v + need m)

more-print : (v : Json Sort.a_value) (rest : List Token) → more (print v rest) ≡ true
unfolding more print
more-print plain rest = refl
more-print (text t) rest = refl
more-print (array e) rest = refl
more-print (object m) rest = refl

need-positive : {s : Sort} (v : Json s) → 0 < need v
unfolding need
need-positive plain = omega arith
need-positive (text t) = omega arith
need-positive (array e) = omega arith
need-positive (object m) = omega arith
need-positive no_elements = omega arith
need-positive (element v e) = omega arith
need-positive no_members = omega arith
need-positive (member k v m) = omega arith

consume-print :
    (n : ℕ) (reading : Reading) (v : Json (sort reading)) (rest : List Token)
    → distinct (keys reading) v ≡ true
    → need v ≤ n
    → consume reading n (print v rest) ≡ some rest
unfolding consume print distinct need closes_array closes_object more
consume-print zero reading v rest h fuel = absurd (let p = need-positive v in omega arith)
consume-print (suc n) Reading.value plain rest h fuel = refl
consume-print (suc n) Reading.value (text t) rest h fuel = refl
consume-print (suc n) Reading.value (array e) rest h fuel =
    consume-print n Reading.elements e rest h (omega arith)
consume-print (suc n) Reading.value (object m) rest h fuel =
    consume-print n (Reading.members []) m rest h (omega arith)
consume-print (suc n) (Reading.members seen) no_members rest h fuel = refl
consume-print (suc n) (Reading.members seen) (member k v m) rest h fuel =
    let new : seen_key k seen ≡ false = ground arith in
    let first = consume-print n Reading.value v (print m rest) (ground arith) (omega arith) in
    let second = consume-print n (Reading.members (k ∷ seen)) m rest (ground arith) (omega arith) in
    rw (new, first) second
consume-print (suc n) Reading.elements no_elements rest h fuel = refl
consume-print (suc n) Reading.elements (element v e) rest h fuel =
    let going = more-print v (print e rest) in
    let first = consume-print n Reading.value v (print e rest) (ground arith) (omega arith) in
    let second = consume-print n Reading.elements e rest (ground arith) (omega arith) in
    rw (going, first) second

slack : Sort → ℕ
slack Sort.a_value = 1
slack _ = 0

need-length :
    {s : Sort} (v : Json s) (rest : List Token)
    → need v + slack s + (length rest + length rest) ≤ length (print v rest) + length (print v rest)
unfolding need slack print
need-length plain rest = omega arith
need-length (text t) rest = omega arith
need-length (array e) rest = omega (arith, need-length e rest)
need-length (object m) rest = omega (arith, need-length m rest)
need-length no_elements rest = omega arith
need-length (element v e) rest = omega (arith, need-length v (print e rest), need-length e rest)
need-length no_members rest = omega arith
need-length (member k v m) rest = omega (arith, need-length v (print m rest), need-length m rest)

enough_fuel : (v : Json Sort.a_value) → need v ≤ length (print v []) + length (print v []) + 1
unfolding slack
enough_fuel v = omega (arith, need-length v [])

at_end-some : (o : Option (List Token)) → at_end o ≡ true → o ≡ some []
at_end-some o h = ground arith

-- What the decoder gives of a frame is accepted exactly if it is the tokens of one value, no object
-- of which has a key twice, at any depth, and then the end: no other token and no error.
pub validate_json_iff :
    (ts : List Token)
    → (validate_json ts ≡ true)
      ↔ ((v : Json Sort.a_value) × (distinct [] v ≡ true) × (ts ≡ print v []))
unfolding validate_json
validate_json_iff ts = (
  λ h.
      let r = consume-Read (length ts + length ts + 1) Reading.value ts [] (at_end-some _ h) in
      (r.it, r.once, r.printed),
  λ (v, once, printed). rw printed (
      rw
        (consume-print (length (print v []) + length (print v []) + 1) Reading.value v [] once
          (enough_fuel v))
        refl),
)
