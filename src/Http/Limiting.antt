-- ===== src/Http/Limiting.antt =====
-- src/http.rs: `LimitBody`, over the answers of the body that it limits.
use wasm_runtime.Base.{
  ap, ℕ, ◌+◌, ◌-◌, ◌≤◌, ◌<◌, List, [], ◌∷◌, ◌≡◌, ◌⊎◌, inl, inr, refl, Bytes, length, ltb,
  if◌then◌else◌, arith, Bool-cases,
}

pub data Frame : Type 0 where
  data_frame : Bytes → Frame
  trailers : Bytes → Frame

pub data Polled (E : Type 0) : Type 0 where
  pending : Polled E
  ended : Polled E
  failed : E → Polled E
  framed : Frame → Polled E

abbrev pub data_len : Frame → ℕ
data_len (data_frame bytes) = length bytes
data_len (trailers fields) = 0

module _ {E : Type 0} (error : ℕ → E) where
  abbrev pub pass_frame : Frame → ℕ → Polled E × ℕ
  pass_frame frame remaining =
      if ltb remaining (data_len frame)
      then (failed (error (data_len frame)), 0)
      else (framed frame, remaining - data_len frame)

  -- `LimitBody::poll_frame`, on the answer of the inner body, and what remains then.
  unfoldable pub poll_frame : Polled E → ℕ → Polled E × ℕ
  poll_frame pending remaining = (pending, remaining)
  poll_frame ended remaining = (ended, remaining)
  poll_frame (failed e) remaining = (failed e, remaining)
  poll_frame (framed frame) remaining = pass_frame frame remaining

  unfoldable pub poll_all : List (Polled E) → ℕ → List (Polled E)
  poll_all [] remaining = []
  poll_all (answer ∷ answers) remaining =
      let (polled, left) = poll_frame answer remaining in polled ∷ poll_all answers left

  -- The bytes of all data frames.
  unfoldable pub total_bytes : List (Polled E) → ℕ
  total_bytes [] = 0
  total_bytes (framed frame ∷ answers) = data_len frame + total_bytes answers
  total_bytes (pending ∷ answers) = total_bytes answers
  total_bytes (ended ∷ answers) = total_bytes answers
  total_bytes (failed e ∷ answers) = total_bytes answers

  abbrev pub ReportsLimit : List (Polled E) → Type 0
  ReportsLimit [] = ⊥
  ReportsLimit (answer ∷ answers) = ((n : ℕ) × (answer ≡ failed (error n))) ⊎ ReportsLimit answers

  pub record Limits (limit : ℕ) (inner outer : List (Polled E)) : Type 0 where
    pub bounded : total_bytes outer ≤ limit
    pub transparent : total_bytes inner ≤ limit → outer ≡ inner
    pub reported : limit < total_bytes inner → ReportsLimit outer

  same_answer :
      (answer : Polled E) (limit : ℕ) (inner outer : List (Polled E))
      → total_bytes (answer ∷ inner) ≡ total_bytes inner
      → total_bytes (answer ∷ outer) ≡ total_bytes outer
      → Limits limit inner outer
      → Limits limit (answer ∷ inner) (answer ∷ outer)
  same_answer answer limit inner outer e e' l = record {
    bounded = omega (arith, l.bounded, e');
    transparent = λ h. ap (λ rest. answer ∷ rest) (l.transparent (omega (arith, h, e)));
    reported = λ h. inr (l.reported (omega (arith, h, e)));
  }

  passed_frame :
      (frame : Frame) (limit : ℕ) (inner outer : List (Polled E))
      → data_len frame ≤ limit
      → Limits (limit - data_len frame) inner outer
      → Limits limit (framed frame ∷ inner) (framed frame ∷ outer)
  unfolding total_bytes
  passed_frame frame limit inner outer fits l = record {
    bounded = omega (arith, l.bounded);
    transparent = λ h. ap (λ rest. framed frame ∷ rest) (l.transparent (omega arith));
    reported = λ h. inr (l.reported (omega arith));
  }

  -- Whatever the inner body answers, the frames that are passed on have at most the bytes of the
  -- limit; if the inner body keeps to it, its answers are passed on unchanged; and if it has more
  -- bytes, the error of the limit is among the answers.
  pub poll_all-Limits :
      (limit : ℕ) (answers : List (Polled E)) → Limits limit answers (poll_all answers limit)
  unfolding poll_all poll_frame total_bytes
  poll_all-Limits limit [] = record {
    bounded = omega arith;
    transparent = λ h. refl;
    reported = λ h. absurd (omega arith);
  }
  poll_all-Limits limit (pending ∷ answers) =
      same_answer pending limit answers (poll_all answers limit) refl refl
        (poll_all-Limits limit answers)
  poll_all-Limits limit (ended ∷ answers) =
      same_answer ended limit answers (poll_all answers limit) refl refl
        (poll_all-Limits limit answers)
  poll_all-Limits limit (failed e ∷ answers) =
      same_answer (failed e) limit answers (poll_all answers limit) refl refl
        (poll_all-Limits limit answers)
  poll_all-Limits limit (framed frame ∷ answers) =
      let over = poll_all-Limits 0 answers in
      let within = poll_all-Limits (limit - data_len frame) answers in
      elim (Bool-cases (ltb limit (data_len frame))) [
        | inl large ↦ rw large (record {
          bounded = omega (arith, over.bounded);
          transparent = λ h. absurd (ground arith);
          reported = λ h. inl (data_len frame, refl);
        })
        | inr fits ↦ rw fits (
            passed_frame frame limit answers (poll_all answers (limit - data_len frame))
              (ground arith) within)
      ]
