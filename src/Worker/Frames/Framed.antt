-- ===== src/Worker/Frames/Framed.antt =====
-- src/wasix_worker.rs: which frames are read.
use mathlib.Core.Path.{subst}
use wasm_runtime.Base.{
  append_assoc, ℕ, ◌^◌, ◌≤◌, ◌<◌, Bool, false, not, ◌&&◌, ◌||◌, Option, none, String, ◌∷◌, ◌++◌,
  Bytes, length, take, drop, ltb, ◌==◌, ◌≡◌, ◌↔◌, refl, sym, ap, ◌∙◌, inl, inr, arith, Option-cases,
  take-append-drop, length-take, take-append_at, drop-append_at, length-append,
}
use wasm_runtime.Base.Words.{
  AllBytes-append_left, AllBytes, to_be_bytes, from_be_bytes, length-to_be_bytes, from_be-to_be,
  to_be-from_be,
}
use wasm_runtime.Failure.{Message, text, ok, >>=-eq-ok, >>-eq-ok, reject-eq-ok}
use wasm_runtime.Worker.Frames.{Pipe, read_exact, reserve, read_bounded_worker_frame}

abbrev pub framed : Bytes → Bytes
framed frame = to_be_bytes 4 (length frame) ++ frame

module _ (try_reserve_exact : ℕ → Option Message) where
  -- A pipe begins with a frame within the bounds for which there is memory.
  pub record IsFramed (maximum : ℕ) (allow_empty : Bool) (pipe : Pipe) (frame : Bytes) (rest : Pipe)
      : Type 0 where
    pub first : pipe.bytes ≡ framed frame ++ rest.bytes
    pub same_end : rest.broken ≡ pipe.broken
    pub nonempty : allow_empty ≡ false → 0 < length frame
    pub bounded : length frame ≤ maximum
    pub room : try_reserve_exact (length frame) ≡ none

read_exact-eq-ok :
    (describe : Message → Message) (n : ℕ) (pipe rest : Pipe) (bytes : Bytes)
    → read_exact describe n pipe ≡ ok (bytes, rest)
    → (length bytes ≡ n) × (pipe.bytes ≡ bytes ++ rest.bytes) × (rest.broken ≡ pipe.broken)
unfolding read_exact
read_exact-eq-ok describe n pipe rest bytes h =
    let there : n ≤ length pipe.bytes = ground arith in
    let front : bytes ≡ take n pipe.bytes = ground (arith, there) in
    let back : rest ≡ record pipe { bytes = drop n pipe.bytes } = ground (arith, there) in
    (
      ap (λ (b : Bytes). length b) front ∙ length-take n pipe.bytes ∙ omega (arith, there),
      sym (
          ap (λ (b : Bytes). b ++ rest.bytes) front
          ∙ ap (λ (p : Pipe). take n pipe.bytes ++ p.bytes) back
          ∙ take-append-drop n pipe.bytes),
      ap (λ (p : Pipe). p.broken) back,
    )

read_exact-append :
    (describe : Message → Message) (n : ℕ) (pipe : Pipe) (front back : Bytes)
    → length front ≡ n
    → pipe.bytes ≡ front ++ back
    → read_exact describe n pipe ≡ ok (front, record pipe { bytes = back })
unfolding read_exact
read_exact-append describe n pipe front back size e =
    let there : n ≤ length pipe.bytes =
      omega (arith, ap (λ (b : Bytes). length b) e, length-append front back, size) in
    let taken : take n pipe.bytes ≡ front =
      ap (take n) e ∙ take-append_at n front back (sym size) in
    let left : drop n pipe.bytes ≡ back = ap (drop n) e ∙ drop-append_at n front back (sym size) in
    ground (arith, there, taken, left)

module _ (try_reserve_exact : ℕ → Option Message) (maximum : ℕ) (allow_empty : Bool)
    (label : String) where
  read_bounded_worker_frame-IsFramed :
      (pipe rest : Pipe) (frame : Bytes)
      → AllBytes pipe.bytes
      → read_bounded_worker_frame try_reserve_exact maximum allow_empty label pipe
        ≡ ok (frame, rest)
      → IsFramed try_reserve_exact maximum allow_empty pipe frame rest
  unfolding read_bounded_worker_frame reserve
  read_bounded_worker_frame-IsFramed pipe rest frame all_bytes h =
      let ((prefix, behind), e1, h1) = >>=-eq-ok (read_exact _ 4 pipe) _ h in
      let size = from_be_bytes prefix in
      let (fits, h2) = reject-eq-ok ((not allow_empty && size == 0) || ltb maximum size) _ _ h1 in
      let (reserved, h3) = >>-eq-ok (reserve try_reserve_exact label size) _ h2 in
      let (four, split, end) = read_exact-eq-ok _ 4 pipe behind prefix e1 in
      let (count, split', end') = read_exact-eq-ok _ size behind rest frame h3 in
      let prefix_bytes : AllBytes prefix =
        AllBytes-append_left prefix behind.bytes (subst AllBytes split all_bytes) in
      let announced : to_be_bytes 4 (length frame) ≡ prefix =
        ap (to_be_bytes 4) count
        ∙ ap (λ n. to_be_bytes n size) (sym four)
        ∙ to_be-from_be prefix prefix_bytes in
      record {
        first =
            split
            ∙ ap (λ (b : Bytes). prefix ++ b) split'
            ∙ sym (append_assoc prefix frame rest.bytes)
            ∙ ap (λ (b : Bytes). (b ++ frame) ++ rest.bytes) (sym announced);
        same_end = end' ∙ end;
        nonempty = λ not_empty. ground (arith, count, fits, not_empty);
        bounded = ground (arith, count, fits);
        room = elim (Option-cases (try_reserve_exact size)) [
          | inl free ↦ ap try_reserve_exact count ∙ free
          | inr (m, full) ↦ ground arith
        ];
      }

  pub IsFramed-read_bounded_worker_frame :
      (pipe rest : Pipe) (frame : Bytes)
      → maximum < 2 ^ 32
      → IsFramed try_reserve_exact maximum allow_empty pipe frame rest
      → read_bounded_worker_frame try_reserve_exact maximum allow_empty label pipe
        ≡ ok (frame, rest)
  unfolding read_bounded_worker_frame reserve
  IsFramed-read_bounded_worker_frame pipe rest frame small i =
      let prefix = to_be_bytes 4 (length frame) in
      let e : pipe.bytes ≡ prefix ++ (frame ++ rest.bytes) =
        i.first ∙ append_assoc prefix frame rest.bytes in
      let behind : Pipe = record { bytes = frame ++ rest.bytes; broken = pipe.broken } in
      let size : from_be_bytes prefix ≡ length frame =
        from_be-to_be 4 (length frame) (omega (arith, small, i.bounded)) in
      let read_prefix =
        read_exact-append
          (λ m. text "failed to read WASIX " ∷ (text label ∷ (text " length: " ∷ m))) 4 pipe prefix
          (frame ++ rest.bytes) (length-to_be_bytes 4 (length frame)) e in
      let read_frame =
        read_exact-append (λ m. text "failed to read WASIX " ∷ (text label ∷ (text ": " ∷ m)))
          (length frame) behind frame rest.bytes refl refl in
      let fits : ((not allow_empty && length frame == 0) || ltb maximum (length frame)) ≡ false =
        ground (arith, i.nonempty, i.bounded) in
      let reserved : reserve try_reserve_exact label (length frame) ≡ ok tt =
        ground (arith, i.room) in
      let last : ok (frame, record behind { bytes = rest.bytes }) ≡ ok (frame, rest) =
        ap (λ end. ok (frame, record rest { broken = end })) (sym i.same_end) in
      rw (read_prefix, size, fits, reserved, read_frame) last

  -- A pipe of bytes gives a bounded frame exactly if it begins with its length in four big-endian
  -- bytes and the frame, which is not empty where it may not be and within the bound, and for which
  -- there is memory. The bound fits in four bytes.
  pub read_bounded_worker_frame_iff :
      (pipe rest : Pipe) (frame : Bytes)
      → maximum < 2 ^ 32
      → AllBytes pipe.bytes
      → (read_bounded_worker_frame try_reserve_exact maximum allow_empty label pipe
          ≡ ok (frame, rest))
        ↔ IsFramed try_reserve_exact maximum allow_empty pipe frame rest
  read_bounded_worker_frame_iff pipe rest frame small all_bytes = (
    read_bounded_worker_frame-IsFramed pipe rest frame all_bytes,
    IsFramed-read_bounded_worker_frame pipe rest frame small,
  )
