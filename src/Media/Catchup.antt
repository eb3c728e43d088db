-- ===== src/Media/Catchup.antt =====
-- What a late joiner gets: the frames since the last keyframe, as far as the buffer holds them
-- (media/gop.rs).
use rtmp_rs.Prelude.{
  ℕ, ◌+◌, ◌-◌, ◌≤◌, ◌≡◌, ◌↔◌, refl, sym, ap, ◌∙◌, true, inl, inr, Bool-cases, List, [], ◌∷◌, ◌++◌,
  arith, append_assoc, append-nil, if◌then◌else◌, ltb,
}
use rtmp_rs.Media.Flv
use rtmp_rs.Media.Flv.{FlvTag, is_keyframe}
use rtmp_rs.Media.Gop.{BufferedFrame, GopBuffer, tags, make_room, on_keyframe, add_frame, push}
use rtmp_rs.Media.Window.{IsValid, make_room_counts, on_keyframe-IsValid, push-IsValid}

pub on_keyframe-max_size : (g : GopBuffer) (t : FlvTag) → (on_keyframe g t).max_size ≡ g.max_size
unfolding on_keyframe
on_keyframe-max_size g t = ground arith

-- A frame is added exactly when it fits the whole buffer by itself.
pub push_added_iff :
    (g : GopBuffer) (t : FlvTag) → IsValid g → ((push g t).1 ≡ true) ↔ (Flv.size t ≤ g.max_size)
unfolding push add_frame
push_added_iff g t v =
    let h = on_keyframe g t in
    let w = on_keyframe-IsValid g t v in
    let counts = make_room_counts h.max_size (Flv.size t) h.current_size h.frames w.counted in
    (
      λ e. ground (arith, counts, on_keyframe-max_size g t),
      λ e. ground (arith, counts, on_keyframe-max_size g t),
    )

pub tags-append : (fs gs : List BufferedFrame) → tags (fs ++ gs) ≡ tags fs ++ tags gs
tags-append [] gs = refl
tags-append (f ∷ fs) gs = ap (λ l. f.tag ∷ l) (tags-append fs gs)

make_room_suffix :
    (max size current : ℕ) (fs : List BufferedFrame)
    → (dropped : List FlvTag) × (dropped ++ tags (make_room max size current fs).1 ≡ tags fs)
unfolding make_room
make_room_suffix max size current [] = ([], refl)
make_room_suffix max size current (f ∷ fs) = elim (Bool-cases (ltb max (current + size))) [
  | inl b ↦
      let (dropped, e) = make_room_suffix max size (current - f.size) fs in
      (f.tag ∷ dropped, rw b (ap (λ l. f.tag ∷ l) e))
  | inr b ↦ ([], rw b)
]

-- The frames since the last keyframe, of a stream of frames behind the frames `acc`.
abbrev pub extend : List FlvTag → FlvTag → List FlvTag
extend acc t = (if is_keyframe t then [] else acc) ++ (t ∷ [])

unfoldable pub current_gop : List FlvTag → List FlvTag → List FlvTag
current_gop acc [] = acc
current_gop acc (t ∷ ts) = current_gop (extend acc t) ts

unfoldable pub replay : GopBuffer → List FlvTag → GopBuffer
replay g [] = g
replay g (t ∷ ts) = replay (push g t).0 ts

-- The buffer holds the last frames of `acc`.
abbrev pub Holds : GopBuffer → List FlvTag → Type 0
Holds g acc = (dropped : List FlvTag) × (dropped ++ tags g.frames ≡ acc)

on_keyframe-Holds :
    (g : GopBuffer) (t : FlvTag) (acc : List FlvTag)
    → Holds g acc
    → Holds (on_keyframe g t) (if is_keyframe t then [] else acc)
unfolding on_keyframe
on_keyframe-Holds g t acc (dropped, e) = elim (Bool-cases (is_keyframe t)) [
  | inl k ↦ rw k ([], refl)
  | inr k ↦ rw k (dropped, e)
]

-- Where a frame is rejected, no other is left.
make_room_nothing :
    (h : GopBuffer) (t : FlvTag)
    → IsValid h
    → ltb h.max_size ((make_room h.max_size (Flv.size t) h.current_size h.frames).0 + Flv.size t)
      ≡ true
    → (make_room h.max_size (Flv.size t) h.current_size h.frames).1 ≡ []
make_room_nothing h t v b =
    ground (arith, make_room_counts h.max_size (Flv.size t) h.current_size h.frames v.counted)

add_frame-Holds :
    (h : GopBuffer) (t : FlvTag) (acc : List FlvTag)
    → IsValid h
    → Holds h acc
    → Holds (add_frame h t).0 (acc ++ (t ∷ []))
unfolding add_frame
add_frame-Holds h t acc v (dropped, e) =
    let (left, gs) = make_room h.max_size (Flv.size t) h.current_size h.frames in
    let (more, e') = make_room_suffix h.max_size (Flv.size t) h.current_size h.frames in
    let (_, _, fits) = make_room_counts h.max_size (Flv.size t) h.current_size h.frames v.counted in
    let rest : (dropped ++ more) ++ tags (gs ++ (record { tag = t; size = Flv.size t } ∷ []))
        ≡ acc ++ (t ∷ []) =
      append_assoc dropped more _
      ∙ ap (λ l. dropped ++ (more ++ l)) (tags-append gs _)
      ∙ ap (λ l. dropped ++ l) (sym (append_assoc more (tags gs) (t ∷ [])))
      ∙ ap (λ l. dropped ++ (l ++ (t ∷ []))) e'
      ∙ sym (append_assoc dropped (tags h.frames) (t ∷ []))
      ∙ ap (λ l. l ++ (t ∷ [])) e in
    elim (Bool-cases (ltb h.max_size (left + Flv.size t))) [
      | inl b ↦
          rw b (acc ++ (t ∷ []), rw (make_room_nothing h t v b) (append-nil (acc ++ (t ∷ []))))
      | inr b ↦ rw b (dropped ++ more, rest)
    ]

-- After any sequence of frames the buffer holds the last frames of those since the last keyframe,
-- with none missing in between.
pub replay-Holds :
    (ts : List FlvTag) (g : GopBuffer) (acc : List FlvTag)
    → IsValid g
    → Holds g acc
    → Holds (replay g ts) (current_gop acc ts)
unfolding replay current_gop
replay-Holds [] g acc v h = h
replay-Holds (t ∷ ts) g acc v h = replay-Holds ts (push g t).0 (extend acc t) (push-IsValid g t v) (
    unfold push in
    add_frame-Holds (on_keyframe g t) t (if is_keyframe t then [] else acc)
      (on_keyframe-IsValid g t v) (on_keyframe-Holds g t acc h))
