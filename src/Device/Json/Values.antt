-- ===== src/Device/Json/Values.antt =====
-- Values and their tokens; what is read with success is a value no object of which has a key twice.
use multi_agent_desk.Prelude.{
  ℕ, suc, zero, ◌≡◌, refl, ap, ◌∙◌, inl, inr, Bool, true, false, not, ◌&&◌, Option, none, some,
  List, [], ◌∷◌, if◌then◌else◌, Text, arith, Bool-cases,
}
use multi_agent_desk.Device.Json.{
  Token, Reading, more, seen_key, closes_object, closes_array, then_read, consume,
}

pub data Sort : Type 0 where
  a_value some_members some_elements : Sort

abbrev pub sort : Reading → Sort
sort Reading.value = Sort.a_value
sort (Reading.members seen) = Sort.some_members
sort Reading.elements = Sort.some_elements

pub data Json : Sort → Type 0 where
  plain : Json Sort.a_value
  text : Text → Json Sort.a_value
  array : Json Sort.some_elements → Json Sort.a_value
  object : Json Sort.some_members → Json Sort.a_value
  no_elements : Json Sort.some_elements
  element : Json Sort.a_value → Json Sort.some_elements → Json Sort.some_elements
  no_members : Json Sort.some_members
  member : Text → Json Sort.a_value → Json Sort.some_members → Json Sort.some_members

unfoldable pub print : {s : Sort} → Json s → List Token → List Token
print plain rest = Token.scalar ∷ rest
print (text t) rest = Token.string t ∷ rest
print (array e) rest = Token.open_array ∷ print e rest
print (object m) rest = Token.open_object ∷ print m rest
print no_elements rest = Token.close_array ∷ rest
print (element v e) rest = print v (print e rest)
print no_members rest = Token.close_object ∷ rest
print (member k v m) rest = Token.string k ∷ print v (print m rest)

-- No object has a key twice; `seen` are the keys that came before.
unfoldable pub distinct : {s : Sort} → List Text → Json s → Bool
distinct seen (array e) = distinct [] e
distinct seen (object m) = distinct [] m
distinct seen (element v e) = distinct [] v && distinct [] e
distinct seen (member k v m) = not (seen_key k seen) && distinct [] v && distinct (k ∷ seen) m
distinct seen _ = true

abbrev pub keys : Reading → List Text
keys (Reading.members seen) = seen
keys _ = []

-- What was read, if it was read with success.
pub record Read (reading : Reading) (ts rest : List Token) : Type 0 where
  pub it : Json (sort reading)
  pub once : distinct (keys reading) it ≡ true
  pub printed : ts ≡ print it rest

-- A chain of two reads succeeds if both do.
then_read-some :
    (o : Option (List Token)) (next : List Token → Option (List Token)) (rest : List Token)
    → then_read o next ≡ some rest
    → (between : List Token) × (o ≡ some between) × (next between ≡ some rest)
then_read-some none next rest h = absurd (ground arith)
then_read-some (some between) next rest h = (between, refl, h)

closes_object-some :
    (ts rest : List Token) → closes_object ts ≡ some rest → ts ≡ Token.close_object ∷ rest
unfolding closes_object
closes_object-some ts rest h = ground arith

closes_array-some :
    (ts rest : List Token) → closes_array ts ≡ some rest → ts ≡ Token.close_array ∷ rest
unfolding closes_array
closes_array-some ts rest h = ground arith

no_more_members :
    (seen : List Text) (ts rest : List Token)
    → (if more ts then none else closes_object ts) ≡ some rest
    → Read (Reading.members seen) ts rest
unfolding print distinct
no_more_members seen ts rest h = record {
  it = no_members;
  once = refl;
  printed = closes_object-some ts rest (ground arith);
}

member-Read :
    (seen : List Text) (key : Text) (ts between rest : List Token)
    → seen_key key seen ≡ false
    → Read Reading.value ts between
    → Read (Reading.members (key ∷ seen)) between rest
    → Read (Reading.members seen) (Token.string key ∷ ts) rest
unfolding print distinct
member-Read seen key ts between rest new v m = record {
  it = member key v.it m.it;
  once = let a = v.once in let b = m.once in ground arith;
  printed = ap (λ x. Token.string key ∷ x) (v.printed ∙ ap (λ x. print v.it x) m.printed);
}

element-Read :
    (ts between rest : List Token)
    → Read Reading.value ts between
    → Read Reading.elements between rest
    → Read Reading.elements ts rest
unfolding print distinct
element-Read ts between rest v e = record {
  it = element v.it e.it;
  once = let a = v.once in let b = e.once in ground arith;
  printed = v.printed ∙ ap (λ x. print v.it x) e.printed;
}

no_more_elements :
    (ts rest : List Token) → closes_array ts ≡ some rest → Read Reading.elements ts rest
unfolding print distinct
no_more_elements ts rest h = record {
  it = no_elements;
  once = refl;
  printed = closes_array-some ts rest h;
}

pub consume-Read :
    (n : ℕ) (reading : Reading) (ts rest : List Token)
    → consume reading n ts ≡ some rest
    → Read reading ts rest
unfolding consume print distinct
consume-Read zero reading ts rest h = absurd (ground arith)
consume-Read (suc n) Reading.value [] rest h = absurd (ground arith)
consume-Read (suc n) Reading.value (Token.close_object ∷ ts) rest h = absurd (ground arith)
consume-Read (suc n) Reading.value (Token.close_array ∷ ts) rest h = absurd (ground arith)
consume-Read (suc n) Reading.value (Token.broken ∷ ts) rest h = absurd (ground arith)
consume-Read (suc n) Reading.value (Token.scalar ∷ ts) rest h = record {
  it = plain;
  once = refl;
  printed = ground arith;
}
consume-Read (suc n) Reading.value (Token.string t ∷ ts) rest h = record {
  it = text t;
  once = refl;
  printed = ground arith;
}
consume-Read (suc n) Reading.value (Token.open_object ∷ ts) rest h =
    let r = consume-Read n (Reading.members []) ts rest h in
    record { it = object r.it; once = r.once; printed = ap (λ x. Token.open_object ∷ x) r.printed }
consume-Read (suc n) Reading.value (Token.open_array ∷ ts) rest h =
    let r = consume-Read n Reading.elements ts rest h in
    record { it = array r.it; once = r.once; printed = ap (λ x. Token.open_array ∷ x) r.printed }
consume-Read (suc n) (Reading.members seen) (Token.string key ∷ ts) rest h =
    let next : List Token → Option (List Token) = λ r. consume (Reading.members (key ∷ seen)) n r in
    let (between, first, second) =
      then_read-some (consume Reading.value n ts) next rest (ground arith) in
    member-Read seen key ts between rest (ground arith)
      (consume-Read n Reading.value ts between first)
      (consume-Read n (Reading.members (key ∷ seen)) between rest second)
consume-Read (suc n) (Reading.members seen) ts rest h = no_more_members seen ts rest h
consume-Read (suc n) Reading.elements ts rest h = elim (Bool-cases (more ts)) [
  | inl going ↦
      let next : List Token → Option (List Token) = λ r. consume Reading.elements n r in
      let (between, first, second) =
        then_read-some (consume Reading.value n ts) next rest (ground arith) in
      element-Read ts between rest (consume-Read n Reading.value ts between first)
        (consume-Read n Reading.elements between rest second)
  | inr over ↦ no_more_elements ts rest (ground arith)
]
