-- ===== src/Media/Window.antt =====
-- The invariant of the buffer, and what `push` keeps (media/gop.rs).
use rtmp_rs.Prelude.{
  ℕ, ◌+◌, ◌-◌, ◌≤◌, ◌≡◌, refl, ◌⊎◌, inl, inr, Bool-cases, List, [], ◌∷◌, ◌++◌, arith, All, ltb,
  ltb→le,
}
use rtmp_rs.Media.Flv
use rtmp_rs.Media.Flv.{FlvTag, is_keyframe}
use rtmp_rs.Media.Gop.{
  BufferedFrame, GopBuffer, with_max_size, make_room, on_keyframe, settle, add_frame, push,
}

-- The sum of the recorded sizes.
abbrev pub total : List BufferedFrame → ℕ
total [] = 0
total (f ∷ fs) = f.size + total fs

-- Every frame records the size of its tag, the buffer records their sum, and the sum is in bounds.
pub record IsValid (g : GopBuffer) : Type 0 where
  pub counted : g.current_size ≡ total g.frames
  pub bounded : g.current_size ≤ g.max_size
  pub measured : All (λ f. f.size ≡ Flv.size f.tag) g.frames

-- What is left of a list when some of its front is dropped.
abbrev pub IsSuffix : List BufferedFrame → List BufferedFrame → Type 0
IsSuffix fs gs = (dropped : List BufferedFrame) × (dropped ++ fs ≡ gs)

total-append : (fs gs : List BufferedFrame) → total (fs ++ gs) ≡ total fs + total gs
total-append [] gs = omega arith
total-append (f ∷ fs) gs = omega (arith, total-append fs gs)

All-append :
    (P : BufferedFrame → Type 0) (fs gs : List BufferedFrame)
    → All P fs
    → All P gs
    → All P (fs ++ gs)
All-append P [] gs hf hg = hg
All-append P (f ∷ fs) gs hf hg = (hf.0, All-append P fs gs hf.1 hg)

-- What `make_room` gives: the size of the frames that remain, and a suffix of the frames.
pub make_room_counts :
    (max size current : ℕ) (fs : List BufferedFrame)
    → current ≡ total fs
    → let (left, gs) = make_room max size current fs in
      (left ≡ total gs) × (left ≤ current) × ((left + size ≤ max) ⊎ (gs ≡ []))
unfolding make_room
make_room_counts max size current [] h = ground arith
make_room_counts max size current (f ∷ fs) h =
    ground (arith, make_room_counts max size (current - f.size) fs (omega arith))

make_room_measured :
    (P : BufferedFrame → Type 0) (max size current : ℕ) (fs : List BufferedFrame)
    → All P fs
    → All P (make_room max size current fs).1
unfolding make_room
make_room_measured P max size current [] h = h
make_room_measured P max size current (f ∷ fs) h = elim (Bool-cases (ltb max (current + size))) [
  | inl t ↦ rw t (make_room_measured P max size (current - f.size) fs h.1)
  | inr t ↦ rw t h
]

pub on_keyframe-IsValid : (g : GopBuffer) (t : FlvTag) → IsValid g → IsValid (on_keyframe g t)
unfolding on_keyframe
on_keyframe-IsValid g t v = elim (Bool-cases (is_keyframe t)) [
  | inl k ↦ rw k (record { counted = refl; bounded = omega arith; measured = tt })
  | inr k ↦ rw k v
]

settle-IsValid :
    (h : GopBuffer) (t : FlvTag) (left : ℕ) (gs : List BufferedFrame)
    → left ≡ total gs
    → left ≤ h.max_size
    → All (λ f. f.size ≡ Flv.size f.tag) gs
    → IsValid (settle h t (Flv.size t) (left, gs)).0
settle-IsValid h t left gs counted bounded measured =
    elim (Bool-cases (ltb h.max_size (left + Flv.size t))) [
      | inl b ↦ rw b (record { counted = counted; bounded = bounded; measured = measured })
      | inr b ↦
          let new : List BufferedFrame = record { tag = t; size = Flv.size t } ∷ [] in
          rw b (record {
            counted = omega (arith, total-append gs new);
            bounded = ltb→le _ _ b;
            measured = All-append (λ f. f.size ≡ Flv.size f.tag) gs new measured (refl, tt);
          })
    ]

-- `push` keeps the invariant, whatever the frame: the size in the buffer stays within the maximum.
pub push-IsValid : (g : GopBuffer) (t : FlvTag) → IsValid g → IsValid (push g t).0
unfolding push add_frame
push-IsValid g t v =
    let h = on_keyframe g t in
    let w = on_keyframe-IsValid g t v in
    let (counted, less, _) =
      make_room_counts h.max_size (Flv.size t) h.current_size h.frames w.counted in
    let (left, gs) = make_room h.max_size (Flv.size t) h.current_size h.frames in
    settle-IsValid h t left gs counted (omega (arith, less, w.bounded)) (
      make_room_measured (λ f. f.size ≡ Flv.size f.tag) h.max_size (Flv.size t) h.current_size
        h.frames w.measured)

-- A new buffer is valid, whatever its maximum.
pub with_max_size-IsValid : (max : ℕ) → IsValid (with_max_size max)
unfolding with_max_size
with_max_size-IsValid max = record { counted = refl; bounded = omega arith; measured = tt }
