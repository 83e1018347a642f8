-- ===== src/TcpPipe/Line/Joined.antt =====
-- The two ends of a socket: what one tcp_pipe_endpoint writes and the other reads.
use common.Base.{
  ℕ, ◌≡◌, refl, sym, ap, ◌∙◌, List, [], ◌∷◌, ◌++◌, length, take, drop, append_assoc, All, arith,
  length-append, take-append, drop-append, ok_injective,
}
use common.TcpPipe.Operation.{Endian, EndianLaws}
use common.TcpPipe.Operation.Write.{WriteProgress}
use common.TcpPipe.Operation.Read.{ReadProgress}
use common.TcpPipe.Endpoint.{Timer, Socket}
use common.TcpPipe.Impl.{read_kind}
use common.TcpPipe.Line.{World, Reach, idle_line}
use common.TcpPipe.Line.Framed.{frames, frames-append}
use common.TcpPipe.Line.History.{Reach-IsLine}
use common.TcpPipe.Line.Sound.{Reach-All}
use common.TcpPipe.Line.Writing.{frame, Measured, write_medium, write_laws}
use common.TcpPipe.Line.Reading.{read_medium}
use common.TcpPipe.Line.Reading.Kept.{read_laws, whole_by_stage}

append_split :
    (xs xs' ys ys' : List ℕ)
    → length xs ≡ length xs'
    → xs ++ ys ≡ xs' ++ ys'
    → (xs ≡ xs') × (ys ≡ ys')
append_split xs xs' ys ys' same h = (
  sym (take-append xs ys)
      ∙ ap (take (length xs)) h
      ∙ ap (λ n. take n (xs' ++ ys')) same
      ∙ take-append xs' ys',
  sym (drop-append xs ys)
      ∙ ap (drop (length xs)) h
      ∙ ap (λ n. drop n (xs' ++ ys')) same
      ∙ drop-append xs' ys',
)

module _ (e : Endian) (laws : EndianLaws e) where
  -- A frame says where it ends.
  frame_split :
      (a b x y : List ℕ)
      → Measured a
      → Measured b
      → frame e a ++ x ≡ frame e b ++ y
      → (a ≡ b) × (x ≡ y)
  frame_split a b x y ma mb h =
      let (header, rest) =
        append_split (e.native_to_big (length a)) (e.native_to_big (length b)) (a ++ x) (b ++ y)
          (laws.width (length a) ∙ sym (laws.width (length b)))
          (sym (append_assoc (e.native_to_big (length a)) a x)
            ∙ h
            ∙ append_assoc (e.native_to_big (length b)) b y) in
      append_split a b x y
        (sym (laws.to_native (length a) ma.1)
          ∙ ap e.big_to_native header
          ∙ laws.to_native (length b) mb.1)
        rest

  -- Frames that are a leading part of other frames hold the same messages.
  frames_prefix :
      (xs ys : List (List ℕ)) (more : List ℕ)
      → All Measured xs
      → All Measured ys
      → frames (frame e) xs ++ more ≡ frames (frame e) ys
      → (rest : List (List ℕ)) × (xs ++ rest ≡ ys)
  frames_prefix [] ys more a b h = (ys, refl)
  frames_prefix (x ∷ xs) [] more a b h = absurd (
      omega (
        arith,
        ap length h,
        length-append (frames (frame e) (x ∷ xs)) more,
        length-append (frame e x) (frames (frame e) xs),
        length-append (e.native_to_big (length x)) x,
        laws.width (length x),
      ))
  frames_prefix (x ∷ xs) (y ∷ ys) more a b h =
      let (same, tail) =
        frame_split x y (frames (frame e) xs ++ more) (frames (frame e) ys) a.0 b.0
          (sym (append_assoc (frame e x) (frames (frame e) xs) more) ∙ h) in
      let (rest, r) = frames_prefix xs ys more a.1 b.1 tail in
      (rest, ap (λ t. t ∷ xs ++ rest) same ∙ ap (λ t. y ∷ t) r)

  All-snoc :
      (xs : List (List ℕ)) (x : List ℕ) → All Measured xs → Measured x → All Measured (xs ++ x ∷ [])
  All-snoc [] x h k = (k, tt)
  All-snoc (y ∷ xs) x h k = (h.0, All-snoc xs x h.1 k)

  written-Measured :
      (t : Timer) (s : Socket) {w : World WriteProgress}
      → Reach (write_medium e) (idle_line t s) w
      → All Measured w.done
  unfolding write_laws
  written-Measured t s r =
      Reach-All (write_medium e) (frame e) (write_laws e laws) Measured (λ w g h. g.measured) t s r

  read-Measured :
      (garbage : ℕ → ℕ) (t : Timer) (s : Socket) {w : World ReadProgress}
      → Reach (read_medium e garbage) (idle_line t s) w
      → All Measured w.done
  unfolding read_laws read_kind
  read-Measured garbage t s r =
      Reach-All (read_medium e garbage) (frame e) (read_laws e garbage laws) Measured
        (λ w g h. (whole_by_stage e garbage laws w g g.stage (ok_injective h)).1) t s r

  abbrev pub Delivered : List (List ℕ) → World WriteProgress → Type 0
  Delivered got w =
      (message : List ℕ) × (suffix : List ℕ) × (rest : List (List ℕ)) × (w.stream ++ suffix
        ≡ frames (frame e) (w.done ++ message ∷ []))
      × (got ++ rest ≡ w.done ++ message ∷ [])

  -- For two endpoints in any states that they can reach, if the bytes that one has read are the
  -- first of those that the other has written, then the messages that the reader has completed
  -- are, unaltered and in order, the first of those that the writer has completed and one more
  -- message; and what the writer has written is a leading part of the frames of the latter.
  pub delivery :
      (garbage : ℕ → ℕ) (t t' : Timer) (s s' : Socket) (more : List ℕ) {w : World WriteProgress}
      {r : World ReadProgress}
      → Reach (write_medium e) (idle_line t s) w
      → Reach (read_medium e garbage) (idle_line t' s') r
      → r.stream ++ more ≡ w.stream
      → Delivered r.done w
  unfolding write_laws read_laws
  delivery garbage t t' s s' more {w} {r} writes reads same =
      let x = Reach-IsLine (write_medium e) (frame e) (write_laws e laws) t s writes in
      let y =
        Reach-IsLine (read_medium e garbage) (frame e) (read_laws e garbage laws) t' s' reads in
      let (message, suffix, begun, measured) = x.partial in
      let sent : w.stream ++ suffix ≡ frames (frame e) (w.done ++ message ∷ []) =
        ap (λ b. b ++ suffix) x.line
        ∙ append_assoc (frames (frame e) w.done) x.tail suffix
        ∙ ap (λ b. frames (frame e) w.done ++ b) begun
        ∙ sym (frames-append (frame e) w.done message) in
      let (rest, p) =
        frames_prefix r.done (w.done ++ message ∷ []) (y.tail ++ (more ++ suffix))
          (read-Measured garbage t' s' reads)
          (All-snoc w.done message (written-Measured t s writes) measured)
          (sym (append_assoc (frames (frame e) r.done) y.tail (more ++ suffix))
            ∙ ap (λ b. b ++ (more ++ suffix)) (sym y.line)
            ∙ sym (append_assoc r.stream more suffix)
            ∙ ap (λ b. b ++ suffix) same
            ∙ sent) in
      (message, suffix, rest, sent, p)
