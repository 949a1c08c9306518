-- ===== src/Device/Frames/Transfer.antt =====
-- A frame that is written is read back, however the writer splits it.
use multi_agent_desk.Prelude.{
  ℕ, zero, suc, ◌^◌, ◌≤◌, ◌<◌, ◌≡◌, ◌≢◌, ◌⊎◌, refl, sym, ap, ◌∙◌, inl, inr, Bool, true, false, ◌||◌,
  Option, none, some, List, [], ◌∷◌, ◌++◌, ltb, ◌==◌, if◌then◌else◌, length, length-append,
  length-drop, take, take-append, drop-append, drop, take-append-drop, Text, arith, Bool-cases,
  Option-cases,
}
use mathlib.Core.List.{append-nil, append_assoc}
use multi_agent_desk.Domain.Errors.{Code, Result, ok, err}
use multi_agent_desk.Device.Json.{Token, validate_json}
use multi_agent_desk.Device.Frames.{
  max_frame_bytes, put_uint32, uint32, Write, marshal_frame, write_all, write_bytes, write_body,
  write_marshalled, write_frame, read_full, read_frame,
}

pub uint32-put_uint32 : (n : ℕ) → n < 2 ^ 32 → uint32 (put_uint32 n) ≡ n
unfolding put_uint32 uint32
uint32-put_uint32 n h = omega arith

length-put_uint32 : (n : ℕ) → 4 ≡ length (put_uint32 n)
unfolding put_uint32
length-put_uint32 n = refl

read_full-append : (a b : Text) (n : ℕ) → n ≡ length a → read_full n (a ++ b) ≡ ok (a, b)
unfolding read_full
read_full-append a b n h =
    let l = length-append a b in
    let enough : ltb (length (a ++ b)) (length a) ≡ false = ground arith in
    rw (h, enough, take-append a b, drop-append a b) refl

-- What a reader makes of the frame of a body that fits.
pub read_frame-frame :
    (tokens : Text → List Token) (body rest : Text)
    → length body ≤ max_frame_bytes
    → read_frame tokens (put_uint32 (length body) ++ (body ++ rest)) ≡ (
        if length body == 0
        then err Code.frame_too_large
        else if validate_json (tokens body)
        then ok (body, rest)
        else err Code.invalid_argument)
unfolding read_frame
read_frame-frame tokens body rest small =
    let size = uint32-put_uint32 (length body) (omega arith) in
    let fits : ltb max_frame_bytes (length body) ≡ false = ground arith in
    let header =
      read_full-append (put_uint32 (length body)) (body ++ rest) 4
        (length-put_uint32 (length body)) in
    elim (Bool-cases (length body == 0)) [
      | inl nothing ↦ rw header (rw (size, nothing) refl)
      | inr something ↦ rw header (elim (Bool-cases (validate_json (tokens body))) [
        | inl valid ↦
            rw (size, something, fits, read_full-append body rest (length body) refl, valid) refl
        | inr wrong ↦
            rw (size, something, fits, read_full-append body rest (length body) refl, wrong) refl
      ])
    ]

-- A writer that adds to what was sent the bytes that it says it took.
abbrev pub Faithful {ℓ} : {W : Type ℓ} → Write W → (W → Text) → Type ℓ
Faithful {W} write sent =
    (data_bytes : Text) (w : W) (n : ℕ)
    → (write data_bytes w).0 ≡ some n
    → n ≤ length data_bytes
    → sent (write data_bytes w).1 ≡ sent w ++ take n data_bytes

module _ {ℓ} {W : Type ℓ} (write : Write W) where
  -- A round that goes on has taken a part of the data.
  write_all_cases :
      (fuel : ℕ) (b : ℕ) (data_bytes : Text) (w : W)
      → let whole = b ∷ data_bytes in
        ((write_all write (suc fuel) whole w).0 ≡ some false)
        ⊎ ((n : ℕ) × ((write whole w).0 ≡ some n)
            × (0 < n)
            × (n ≤ length whole)
            × (write_all write (suc fuel) whole w
                ≡ write_all write fuel (drop n whole) (write whole w).1))
  unfolding write_all
  write_all_cases fuel b data_bytes w = elim (Option-cases (write (b ∷ data_bytes) w).0) [
    | inl failed ↦ inl (ground arith)
    | inr (n, took) ↦ elim (Bool-cases (n == 0 || ltb (length (b ∷ data_bytes)) n)) [
      | inl short ↦ inl (ground arith)
      | inr going ↦ inr (n, took, ground arith, ground arith, ground arith)
    ]
  ]

  write_all_ends :
      (fuel : ℕ) (data_bytes : Text) (w : W)
      → length data_bytes ≤ fuel
      → (write_all write fuel data_bytes w).0 ≢ none
  unfolding write_all
  write_all_ends fuel [] w h = λ e. ground arith
  write_all_ends zero (b ∷ data_bytes) w h = absurd (omega arith)
  write_all_ends (suc fuel) (b ∷ data_bytes) w h = elim (write_all_cases fuel b data_bytes w) [
    | inl failed ↦ λ e. absurd (ground arith)
    | inr (n, took, some_taken, bound, goes_on) ↦
        let shorter = length-drop n (b ∷ data_bytes) in
        let ends =
          write_all_ends fuel (drop n (b ∷ data_bytes)) (write (b ∷ data_bytes) w).1
            (omega arith) in
        λ e. ends (sym (ap (λ x. x.0) goes_on) ∙ e)
  ]

  module _ (sent : W → Text) (faithful : Faithful write sent) where
    write_all-sent :
        (fuel : ℕ) (data_bytes : Text) (w : W)
        → (write_all write fuel data_bytes w).0 ≡ some true
        → sent (write_all write fuel data_bytes w).1 ≡ sent w ++ data_bytes
    unfolding write_all
    write_all-sent fuel [] w h = sym (append-nil (sent w))
    write_all-sent zero (b ∷ data_bytes) w h = absurd (ground arith)
    write_all-sent (suc fuel) (b ∷ data_bytes) w h = elim (write_all_cases fuel b data_bytes w) [
      | inl failed ↦ absurd (ground arith)
      | inr (n, took, some_taken, bound, goes_on) ↦
          let whole = b ∷ data_bytes in
          let later =
            write_all-sent fuel (drop n whole) (write whole w).1
              (sym (ap (λ x. x.0) goes_on) ∙ h) in
          ap (λ x. sent x.1) goes_on
          ∙ later
          ∙ ap (λ t. t ++ drop n whole) (faithful whole w n took bound)
          ∙ append_assoc (sent w) (take n whole) (drop n whole)
          ∙ ap (λ t. sent w ++ t) (take-append-drop n whole)
    ]

    write_bytes-sent :
        (data_bytes : Text) (w : W)
        → (write_bytes write data_bytes w).0 ≡ some true
        → sent (write_bytes write data_bytes w).1 ≡ sent w ++ data_bytes
    unfolding write_bytes
    write_bytes-sent data_bytes w h = write_all-sent (length data_bytes) data_bytes w h

    write_body-sent :
        (body : Text) (o : Option Bool × W)
        → (write_body write body o).0 ≡ some (ok tt)
        → (o.0 ≡ some true) × (sent (write_body write body o).1 ≡ sent o.1 ++ body)
    unfolding write_body
    write_body-sent body (none, w) h = absurd (ground arith)
    write_body-sent body (some false, w) h = absurd (ground arith)
    write_body-sent body (some true, w) h =
        let done : (write_bytes write body w).0 ≡ some true = ground arith in
        let s = write_bytes-sent body w done in
        let last : (write_body write body (some true, w)).1 ≡ (write_bytes write body w).1 =
          ground arith in
        (refl, ap sent last ∙ s)

    marshalled-sent :
        (body : Text) (w : W)
        → (write_marshalled write (marshal_frame (some body)) w).0 ≡ some (ok tt)
        → (length body ≤ max_frame_bytes)
          × (sent (write_marshalled write (marshal_frame (some body)) w).1
              ≡ sent w ++ (put_uint32 (length body) ++ body))
    unfolding write_marshalled marshal_frame
    marshalled-sent body w h = elim (Bool-cases (ltb max_frame_bytes (length body))) [
      | inl big ↦ absurd (ground arith)
      | inr small ↦
          let header = put_uint32 (length body) in
          let written : (write_body write body (write_bytes write header w)).0 ≡ some (ok tt) =
            ground arith in
          let (first, second) = write_body-sent body (write_bytes write header w) written in
          (
            ground arith,
            rw small (
                second
                ∙ ap (λ t. t ++ body) (write_bytes-sent header w first)
                ∙ append_assoc (sent w) header body),
          )
    ]

    -- A frame that is written with success is the header and the body, sent whole after what was
    -- sent before; the body fits, and a reader that gets it, with whatever comes behind, refuses it
    -- as too large if it is empty, refuses it as invalid if its tokens are not accepted, and else
    -- gets the body back and goes on behind it. The writer adds to what was sent the bytes that it
    -- says it took.
    pub frame_round_trip :
        (tokens : Text → List Token) (body rest : Text) (w : W)
        → (write_frame write (some body) w).0 ≡ some (ok tt)
        → (length body ≤ max_frame_bytes)
          × (sent (write_frame write (some body) w).1
              ≡ sent w ++ (put_uint32 (length body) ++ body))
          × (read_frame tokens ((put_uint32 (length body) ++ body) ++ rest) ≡ (
              if length body == 0
              then err Code.frame_too_large
              else if validate_json (tokens body)
              then ok (body, rest)
              else err Code.invalid_argument))
    unfolding write_frame
    frame_round_trip tokens body rest w h =
        let (fits, same) = marshalled-sent body w h in
        let header = put_uint32 (length body) in
        (
          fits,
          same,
          ap (λ t. read_frame tokens t) (append_assoc header body rest)
              ∙ read_frame-frame tokens body rest fits,
        )

  write_body_ends :
      (body : Text) (o : Option Bool × W) → o.0 ≢ none → (write_body write body o).0 ≢ none
  unfolding write_body write_bytes
  write_body_ends body (none, w) h = λ e. h refl
  write_body_ends body (some false, w) h = λ e. ground arith
  write_body_ends body (some true, w) h =
      let ends = write_all_ends (length body) body w (omega arith) in ground arith

  write_marshalled_ends : (r : Result Text) (w : W) → (write_marshalled write r w).0 ≢ none
  unfolding write_marshalled write_bytes
  write_marshalled_ends (err e) w = λ h. ground arith
  write_marshalled_ends (ok body) w =
      let header = put_uint32 (length body) in
      write_body_ends body (write_all write (length header) header w)
        (write_all_ends (length header) header w (omega arith))

  -- Writing a frame returns, whatever the writer does.
  pub write_frame_returns : (encoded : Option Text) (w : W) → (write_frame write encoded w).0 ≢ none
  unfolding write_frame
  write_frame_returns encoded w = write_marshalled_ends (marshal_frame encoded) w
