-- ===== src/Filesystem/Buffered/Laws.antt =====
-- filesystem/readwriter.go: what is written arrives, and the source is closed.
use primordium.Base.{ℕ, ◌≡◌, refl, sym, ap, ◌∙◌, Bytes, List, [], ◌∷◌, ◌++◌, Option, none, some}
use mathlib.Core.List.{append_assoc, append-nil}
use primordium.Errors.{Error, join}
use primordium.Filesystem.Buffered.{
  Bufio, ReadWriter, new_read_writer_with_size, read_both, write, close, close_flushed,
}

-- What `Close` of a source does, if there is one.
abbrev Closes :
    (B : Bufio)
    → (B.Source → Type 0)
    → (B.Source → Bytes)
    → Option (B.Source → B.Source × Option Error)
    → Type 0
Closes B closed sent none = Unit {0}
Closes B closed sent (some closer) =
    (s : B.Source) → closed (closer s).0 × (sent (closer s).0 ≡ sent s)

-- What the documentation of `bufio.Writer` promises: `sent` is what the source was given, `pending`
-- what the buffer holds. A write or flush that reports no error loses nothing. Reading and closing
-- leave `sent`.
pub record IsBufio (B : Bufio) : Type 1 where
  pub sent : B.Source → Bytes
  pub pending : B.OutBuffer → Bytes
  pub closed : B.Source → Type 0
  pub new_empty : (size : ℕ) → pending (B.new_writer_size size) ≡ []
  pub write_keeps :
      (s : B.Source) (b : B.OutBuffer) (p : Bytes)
      → (B.write s b p).2.error ≡ none
      → sent (B.write s b p).0 ++ pending (B.write s b p).1 ≡ (sent s ++ pending b) ++ p
  pub flush_sends :
      (s : B.Source) (b : B.OutBuffer)
      → (B.flush s b).2 ≡ none
      → sent (B.flush s b).0 ≡ sent s ++ pending b
  pub read_keeps :
      (s : B.Source) (b : B.InBuffer) (dest : Bytes) → sent (B.read s b dest).0 ≡ sent s
  pub closer_lem : Closes B closed sent B.closer

abbrev pub concat : List Bytes → Bytes
concat [] = []
concat (p ∷ ps) = p ++ concat ps

module _ (B : Bufio) (L : IsBufio B) where
  -- A client writes some texts, of which every write reports no error, and reads between, where a
  -- read may fail.
  pub data Writes : ReadWriter B → List Bytes → ReadWriter B → Type 0 where
    no_more : {rw : ReadWriter B} → Writes rw [] rw
    write_one :
        {rw rw' : ReadWriter B} (p : Bytes) {ps : List Bytes}
        → (write B rw p).1.error ≡ none
        → Writes (write B rw p).0 ps rw'
        → Writes rw (p ∷ ps) rw'
    read_one :
        {rw rw' : ReadWriter B} (dest : Bytes) {ps : List Bytes}
        → Writes (read_both B rw dest).0 ps rw'
        → Writes rw ps rw'

  -- What the source has and will be given.
  abbrev pub content : ReadWriter B → Bytes
  content rw = L.sent rw.src ++ L.pending rw.w

  Writes-content :
      {rw rw' : ReadWriter B} {ps : List Bytes}
      → Writes rw ps rw'
      → content rw' ≡ content rw ++ concat ps
  unfolding write read_both
  Writes-content {rw} no_more = sym (append-nil (content rw))
  Writes-content {rw} (write_one p {ps} h w) =
      Writes-content w
      ∙ ap (λ (c : Bytes). c ++ concat ps) (L.write_keeps rw.src rw.w p h)
      ∙ append_assoc (content rw) p (concat ps)
  Writes-content {rw} (read_one dest {ps} w) =
      Writes-content w
      ∙ ap (λ (c : Bytes). (c ++ L.pending rw.w) ++ concat ps) (L.read_keeps rw.src rw.r dest)

  -- The source is closed, if it can be.
  abbrev pub ClosedBy : Option (B.Source → B.Source × Option Error) → B.Source → Type 0
  ClosedBy none s = Unit {0}
  ClosedBy (some closer) s = L.closed s

  -- The source has been given the text, or there was an error.
  abbrev pub Sends : Bytes → ReadWriter B × Option Error → Type 0
  Sends text (rw, none) = L.sent rw.src ≡ text
  Sends text (rw, some e) = Unit {0}

  -- The flush gave the source the text, or failed.
  abbrev Flushed : Bytes → B.Source × B.OutBuffer × Option Error → Type 0
  Flushed text (s, b, none) = L.sent s ≡ text
  Flushed text (s, b, some e) = Unit {0}

  flushed :
      (text : Bytes) (x : B.Source × B.OutBuffer × Option Error)
      → (x.2 ≡ none → L.sent x.0 ≡ text)
      → Flushed text x
  flushed text (s, b, none) h = h refl
  flushed text (s, b, some e) h = tt

  joined-Sends :
      (text : Bytes) (rw : ReadWriter B) (e : Error) (f : Option Error)
      → Sends text (rw, join (some e) f)
  joined-Sends text rw e none = tt
  joined-Sends text rw e (some f) = tt

  closer-Sends :
      (text : Bytes) (rw : ReadWriter B) (f : Option Error)
      → L.sent rw.src ≡ text
      → Sends text (rw, join none f)
  closer-Sends text rw none h = h
  closer-Sends text rw (some f) h = tt

  close_flushed-Sends :
      (c : Option (B.Source → B.Source × Option Error)) (rw : ReadWriter B) (text : Bytes)
      (x : B.Source × B.OutBuffer × Option Error)
      → Closes B L.closed L.sent c
      → Flushed text x
      → ClosedBy c (close_flushed B c rw x).0.src × Sends text (close_flushed B c rw x)
  unfolding close_flushed
  close_flushed-Sends none rw text (s, b, none) q h = (tt, h)
  close_flushed-Sends none rw text (s, b, some e) q h = (tt, tt)
  close_flushed-Sends (some closer) rw text (s, b, none) q h = (
    (q s).0,
    closer-Sends text (record rw { w = b; src = (closer s).0 }) (closer s).1 ((q s).1 ∙ h),
  )
  close_flushed-Sends (some closer) rw text (s, b, some e) q h =
      ((q s).0, joined-Sends text (record rw { w = b; src = (closer s).0 }) e (closer s).1)

  -- A client opens a `ReadWriter`, writes texts with no error, reads between, and closes it. The source
  -- is closed if it can be, also where the flush fails. If `Close` reports no error, the source was
  -- given exactly the texts, in order.
  pub close-Sends :
      (s : B.Source) (size : ℕ) {rw : ReadWriter B} (ps : List Bytes)
      → Writes (new_read_writer_with_size B s size) ps rw
      → ClosedBy B.closer (close B rw).0.src × Sends (L.sent s ++ concat ps) (close B rw)
  unfolding close new_read_writer_with_size
  close-Sends s size {rw} ps w =
      let all_sent : content rw ≡ L.sent s ++ concat ps =
        Writes-content w
        ∙ ap (λ (b : Bytes). (L.sent s ++ b) ++ concat ps) (L.new_empty size)
        ∙ ap (λ (b : Bytes). b ++ concat ps) (append-nil (L.sent s)) in
      close_flushed-Sends B.closer rw (L.sent s ++ concat ps) (B.flush rw.src rw.w) L.closer_lem (
        flushed (L.sent s ++ concat ps) (B.flush rw.src rw.w)
          (λ k. L.flush_sends rw.src rw.w k ∙ all_sent))
