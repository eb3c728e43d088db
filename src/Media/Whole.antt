-- ===== src/Media/Whole.antt =====
-- A group of pictures that fits the buffer is there in whole, and a keyframe that does not leaves
-- a buffer that says it has one (media/gop.rs).
use rtmp_rs.Prelude.{
  ℕ, ◌+◌, ◌≤◌, ◌<◌, ◌≡◌, refl, sym, ap, subst, ◌∙◌, true, false, inl, inr, Bool-cases, Option, List,
  [], ◌∷◌, ◌++◌, arith, All, if◌then◌else◌, ltb, le→ltb, lt→ltb,
}
use rtmp_rs.Media.Flv
use rtmp_rs.Media.Flv.{FlvTag, is_keyframe}
use rtmp_rs.Media.Gop.{
  BufferedFrame, GopBuffer, tags, make_room, on_keyframe, add_frame, push, get_catchup_data,
  to_list, is_ready, is_some,
}
use rtmp_rs.Media.Window.{IsValid, total, on_keyframe-IsValid, push-IsValid}
use rtmp_rs.Media.Catchup.{extend, current_gop, replay, tags-append, on_keyframe-max_size}

-- The bytes of a list of frames.
abbrev pub bytes : List FlvTag → ℕ
bytes [] = 0
bytes (t ∷ ts) = Flv.size t + bytes ts

bytes-append : (xs ys : List FlvTag) → bytes (xs ++ ys) ≡ bytes xs + bytes ys
bytes-append [] ys = omega arith
bytes-append (x ∷ xs) ys = omega (arith, bytes-append xs ys)

total-tags :
    (fs : List BufferedFrame) → All (λ f. f.size ≡ Flv.size f.tag) fs → total fs ≡ bytes (tags fs)
total-tags [] h = refl
total-tags (f ∷ fs) h = omega (arith, total-tags fs h.1, h.0)

-- At every frame, the frames since the last keyframe fit the buffer.
abbrev pub FitsAll : ℕ → List FlvTag → List FlvTag → Type 0
FitsAll max acc [] = Unit
FitsAll max acc (t ∷ ts) = (bytes (extend acc t) ≤ max) × FitsAll max (extend acc t) ts

make_room_stays :
    (max size current : ℕ) (fs : List BufferedFrame)
    → current + size ≤ max
    → make_room max size current fs ≡ (current, fs)
unfolding make_room
make_room_stays max size current [] h = refl
make_room_stays max size current (f ∷ fs) h = rw (le→ltb _ _ h)

add_frame_fits :
    (h : GopBuffer) (t : FlvTag)
    → h.current_size + Flv.size t ≤ h.max_size
    → tags (add_frame h t).0.frames ≡ tags h.frames ++ (t ∷ [])
unfolding add_frame
add_frame_fits h t fits =
    rw (make_room_stays h.max_size (Flv.size t) h.current_size h.frames fits, le→ltb _ _ fits)
      (tags-append h.frames _)

on_keyframe-tags :
    (g : GopBuffer) (t : FlvTag)
    → tags (on_keyframe g t).frames ≡ (if is_keyframe t then [] else tags g.frames)
unfolding on_keyframe
on_keyframe-tags g t = elim (Bool-cases (is_keyframe t)) [ inl k ↦ rw k | inr k ↦ rw k ]

push_fits :
    (g : GopBuffer) (t : FlvTag)
    → IsValid g
    → bytes (extend (tags g.frames) t) ≤ g.max_size
    → tags (push g t).0.frames ≡ extend (tags g.frames) t
unfolding push
push_fits g t v fits =
    let h = on_keyframe g t in
    let w = on_keyframe-IsValid g t v in
    let held : h.current_size + Flv.size t ≤ h.max_size = omega (
      arith,
      w.counted,
      total-tags h.frames w.measured,
      ap bytes (on_keyframe-tags g t),
      bytes-append (if is_keyframe t then [] else tags g.frames) (t ∷ []),
      on_keyframe-max_size g t,
    ) in
    add_frame_fits h t held ∙ ap (λ l. l ++ (t ∷ [])) (on_keyframe-tags g t)

-- `push` leaves the bound and the headers alone.
push_keeps :
    (g : GopBuffer) (t : FlvTag)
    → let h = (push g t).0 in
      (h.max_size ≡ g.max_size)
      × (h.video_header ≡ g.video_header)
      × (h.audio_header ≡ g.audio_header)
unfolding push add_frame on_keyframe
push_keeps g t = (ground arith, ground arith, ground arith)

replay_catchup_from :
    (ts : List FlvTag) (g : GopBuffer) (max : ℕ) (acc : List FlvTag) (video audio : Option FlvTag)
    → IsValid g
    → g.max_size ≡ max
    → tags g.frames ≡ acc
    → g.video_header ≡ video
    → g.audio_header ≡ audio
    → FitsAll max acc ts
    → get_catchup_data (replay g ts) ≡ to_list video ++ (to_list audio ++ current_gop acc ts)
unfolding replay current_gop
replay_catchup_from [] g max acc video audio v hm ht hv ha fits =
    unfold get_catchup_data in rw (hv, ha, ht)
replay_catchup_from (t ∷ ts) g max acc video audio v hm ht hv ha fits =
    let (max', video', audio') = push_keeps g t in
    let room : bytes (extend (tags g.frames) t) ≤ g.max_size =
      subst (λ m. bytes (extend (tags g.frames) t) ≤ m) (sym hm)
        (subst (λ l. bytes (extend l t) ≤ max) (sym ht) fits.0) in
    replay_catchup_from ts (push g t).0 max (extend acc t) video audio (push-IsValid g t v)
      (max' ∙ hm) (push_fits g t v room ∙ ap (λ l. extend l t) ht) (video' ∙ hv) (audio' ∙ ha)
      fits.1

-- A late joiner gets the sequence headers and then exactly the frames since the last keyframe, in
-- order, where these fit the buffer.
pub replay_catchup :
    (ts : List FlvTag) (g : GopBuffer)
    → IsValid g
    → FitsAll g.max_size (tags g.frames) ts
    → get_catchup_data (replay g ts)
      ≡ to_list g.video_header ++ (to_list g.audio_header ++ current_gop (tags g.frames) ts)
replay_catchup ts g v fits =
    replay_catchup_from ts g g.max_size (tags g.frames) g.video_header g.audio_header v refl refl
      refl refl fits

-- A keyframe larger than the whole buffer is rejected and leaves no frame at all, yet the buffer
-- says that it has a complete group, and that it is ready where it has a video header.
pub push_oversized :
    (g : GopBuffer) (t : FlvTag)
    → is_keyframe t ≡ true
    → g.max_size < Flv.size t
    → let (h, added) = push g t in
      (added ≡ false)
      × (h.frames ≡ [])
      × (h.has_complete_gop ≡ true)
      × (is_ready h ≡ is_some g.video_header)
unfolding push add_frame on_keyframe make_room is_ready
push_oversized g t k big =
    let over : ltb g.max_size (0 + Flv.size t) ≡ true = lt→ltb _ _ (omega arith) in
    rw (k, over) (refl, refl, refl, ground arith)
