-- ===== src/Transport/Frames.antt =====
-- Frames on the wire, from `send` to `receive` (stavrobot_imcp/transport.py).
use stavrobot_imcp_plugin.Prelude.{
  ℕ, zero, suc, ◌+◌, ◌≤◌, true, false, Option, none, some, List, [], ◌∷◌, ◌++◌, map, length, ltb,
  has_code, ◌==◌, All, ◌≡◌, ◌⊎◌, inl, inr, refl, sym, ap, ◌∙◌, arith, Bool-cases, ==_iff,
  length-append,
}
use stavrobot_imcp_plugin.Json.Dump.{Bytes}
use stavrobot_imcp_plugin.Transport.{
  Fault, timed_out, broken, Line, line, overrun, failed, split_line, line_of, read_line, ReadStream,
  WriteStream, Received, message, closed_with, received, receive, send, send_all,
}

-- A frame without a newline, within the limit.
abbrev pub IsFrame : ℕ → Bytes → Type 0
IsFrame limit bs = (has_code 10 bs ≡ false) × (length bs ≤ limit)

no_newline :
    (c : ℕ) (x : Bytes)
    → has_code 10 (c ∷ x) ≡ false
    → ((c == 10) ≡ false) × (has_code 10 x ≡ false)
unfolding has_code
no_newline c x h = (ground arith, ground arith)

split_line-frame :
    (x rest : Bytes) → has_code 10 x ≡ false → split_line (x ++ 10 ∷ rest) ≡ (x, some rest)
unfolding split_line has_code
split_line-frame [] rest h = refl
split_line-frame (c ∷ x) rest h =
    let (head, tail) = no_newline c x h in rw (head, split_line-frame x rest tail) refl

not_over : (n k : ℕ) → n ≤ k → ltb k n ≡ false
not_over n k h = ground arith

read_line-frame :
    (limit : ℕ) (x rest : Bytes)
    → IsFrame limit x
    → read_line limit none (x ++ 10 ∷ rest) ≡ (line (x ++ 10 ∷ []), rest)
unfolding read_line line_of
read_line-frame limit x rest h =
    rw (split_line-frame x rest h.0, not_over (length x) limit h.1) refl

++-assoc : (xs ys zs : Bytes) → (xs ++ ys) ++ zs ≡ xs ++ (ys ++ zs)
++-assoc [] ys zs = refl
++-assoc (x ∷ xs) ys zs = ap (λ t. x ∷ t) (++-assoc xs ys zs)

++-nil : (xs : Bytes) → xs ++ [] ≡ xs
++-nil [] = refl
++-nil (x ∷ xs) = ap (λ t. x ∷ t) (++-nil xs)

module _ {A : Type 0} (parse : Bytes → A) where
  received-frame :
      (x rest : Bytes)
      → received parse (line (x ++ 10 ∷ []), rest)
        ≡ (message (parse (x ++ 10 ∷ [])), record { pending = rest; read_closed = false })
  unfolding received
  received-frame [] rest = refl
  received-frame (c ∷ x) rest = refl

  receive-frame :
      (limit : ℕ) (x rest : Bytes)
      → IsFrame limit x
      → receive parse limit none (record { pending = x ++ 10 ∷ rest; read_closed = false })
        ≡ (message (parse (x ++ 10 ∷ [])), record { pending = rest; read_closed = false })
  unfolding receive
  receive-frame limit x rest h = rw (read_line-frame limit x rest h) (received-frame x rest)

  -- `n` messages, one after the other.
  pub receive_n : ℕ → ℕ → ReadStream → List (Received A) × ReadStream
  receive_n limit zero s = ([], s)
  receive_n limit (suc n) s =
      let (r, s') = receive parse limit none s in let (rs, t) = receive_n limit n s' in (r ∷ rs, t)

module _ {A B : Type 0} (dump : A → Bytes) (parse : Bytes → B) where
  wire : List A → Bytes
  wire [] = []
  wire (item ∷ items) = dump item ++ 10 ∷ wire items

  frame_of : A → Received B
  frame_of item = message (parse (dump item ++ 10 ∷ []))

  receive_n-wire :
      (limit : ℕ) (items : List A)
      → All (λ item. IsFrame limit (dump item)) items
      → receive_n parse limit (length items) (record { pending = wire items; read_closed = false })
        ≡ (map frame_of items, record { pending = []; read_closed = false })
  unfolding receive_n wire frame_of
  receive_n-wire limit [] h = refl
  receive_n-wire limit (item ∷ items) h =
      rw (receive-frame parse limit (dump item) (wire items) h.0, receive_n-wire limit items h.1)
        refl

  send-open :
      (item : A) (s : WriteStream)
      → s.write_closed ≡ false
      → s.closing ≡ false
      → (send dump false item s).1 ≡ record s { written = s.written ++ (dump item ++ 10 ∷ []) }
  unfolding send
  send-open item s open_ going = rw (open_, going) refl

  send_all-wire :
      (items : List A) (s : WriteStream)
      → s.write_closed ≡ false
      → s.closing ≡ false
      → (send_all dump items s).written ≡ s.written ++ wire items
  unfolding send_all wire
  send_all-wire [] s open_ going = sym (++-nil s.written)
  send_all-wire (item ∷ items) s open_ going =
      ap (λ t. (send_all dump items t).written) (send-open item s open_ going)
      ∙ (send_all-wire items (record s { written = s.written ++ (dump item ++ 10 ∷ []) }) open_
            going
          ∙ (++-assoc s.written (dump item ++ 10 ∷ []) (wire items)
              ∙ ap (λ t. s.written ++ t) (++-assoc (dump item) (10 ∷ []) (wire items))))

-- Messages whose dumps have no newline and are within the limit, sent without a fault over an open
-- stream that has sent nothing yet: the peer receives them all, in order, each as its own frame,
-- and nothing is left.
pub receive_n-send_all :
    {A B : Type 0} (dump : A → Bytes) (parse : Bytes → B) (limit : ℕ) (items : List A)
    → All (λ item. IsFrame limit (dump item)) items
    → receive_n parse limit (length items) (record {
      pending =
          (send_all dump items
            (record { written = []; write_closed = false; closing = false })).written;
      read_closed = false;
    })
      ≡ (
        map (λ item. message (parse (dump item ++ 10 ∷ []))) items,
        record { pending = []; read_closed = false },
      )
unfolding frame_of
receive_n-send_all dump parse limit items h =
    rw
      (send_all-wire dump parse items
        (record { written = []; write_closed = false; closing = false }) refl refl)
      (receive_n-wire dump parse limit items h)

-- After a read: the stream is closed, or a frame came that is not empty and is the next bytes of
-- the stream, at most the limit and a newline, and the rest is still to come.
pub IsReceived : {A : Type 0} → (Bytes → A) → ℕ → ReadStream → Received A × ReadStream → Type 0
IsReceived parse limit s r =
    (r.1.read_closed ≡ true)
    ⊎ ((c : ℕ) × (bs : Bytes) × (r.0 ≡ message (parse (c ∷ bs)))
        × (r.1.read_closed ≡ false)
        × (s.pending ≡ (c ∷ bs) ++ r.1.pending)
        × (length (c ∷ bs) ≤ limit + 1))

-- The bytes that were split.
joined : Bytes × Option Bytes → Bytes
joined (content, none) = content
joined (content, some rest) = content ++ 10 ∷ rest

joined-cons : (c : ℕ) (p : Bytes × Option Bytes) → joined (c ∷ p.0, p.1) ≡ c ∷ joined p
unfolding joined
joined-cons c (content, none) = refl
joined-cons c (content, some rest) = refl

joined-split_line : (p : Bytes) → joined (split_line p) ≡ p
unfolding joined split_line
joined-split_line [] = refl
joined-split_line (c ∷ p) = elim (Bool-cases (c == 10)) [
  | inl e ↦ rw (split_line, e) (ap (λ t. t ∷ p) (sym ((==_iff c 10).0 e)))
  | inr e ↦
      rw (split_line, e) (joined-cons c (split_line p) ∙ ap (λ t. c ∷ t) (joined-split_line p))
]

-- A line that was read is the next bytes, within the limit.
IsNext : ℕ → Bytes → Line × Bytes → Type 0
IsNext limit pending (line bs, rest) = (pending ≡ bs ++ rest) × (length bs ≤ limit + 1)
IsNext limit pending (overrun, rest) = Unit
IsNext limit pending (failed f, rest) = Unit

line_of-IsNext :
    (limit : ℕ) (pending : Bytes) (p : Bytes × Option Bytes)
    → joined p ≡ pending
    → length p.0 ≤ limit
    → IsNext limit pending (line_of p)
unfolding IsNext line_of joined
line_of-IsNext limit pending (content, none) e h = (sym e ∙ sym (++-nil content), omega arith)
line_of-IsNext limit pending (content, some rest) e h =
    (sym e ∙ sym (++-assoc content (10 ∷ []) rest), omega (arith, length-append content (10 ∷ [])))

within_limit : (n k : ℕ) → ltb k n ≡ false → n ≤ k
within_limit n k h = ground arith

read_line-IsNext :
    (limit : ℕ) (fault : Option Fault) (pending : Bytes)
    → IsNext limit pending (read_line limit fault pending)
unfolding IsNext read_line
read_line-IsNext limit (some fault) pending = tt
read_line-IsNext limit none pending =
    elim (Bool-cases (ltb limit (length (split_line pending).0))) [
      | inl e ↦ rw e tt
      | inr e ↦ rw e (
          line_of-IsNext limit pending (split_line pending) (joined-split_line pending)
            (within_limit (length (split_line pending).0) limit e))
    ]

received-IsReceived :
    {A : Type 0} (parse : Bytes → A) (limit : ℕ) (s : ReadStream) (r : Line × Bytes)
    → IsNext limit s.pending r
    → IsReceived parse limit s (received parse r)
unfolding IsNext received IsReceived closed_with
received-IsReceived parse limit s (line [], rest) h = inl refl
received-IsReceived parse limit s (line (c ∷ bs), rest) h = inr (c, bs, refl, refl, h.0, h.1)
received-IsReceived parse limit s (overrun, rest) h = inl refl
received-IsReceived parse limit s (failed timed_out, rest) h = inl refl
received-IsReceived parse limit s (failed broken, rest) h = inl refl

-- Whatever the bytes and the faults, a read closes the stream, or it takes the next bytes of the stream
-- as one frame, which is not empty and has at most the limit and a newline, and leaves the rest.
pub receive-IsReceived :
    {A : Type 0} (parse : Bytes → A) (limit : ℕ) (fault : Option Fault) (s : ReadStream)
    → IsReceived parse limit s (receive parse limit fault s)
unfolding receive IsReceived
receive-IsReceived parse limit fault s = elim (Bool-cases s.read_closed) [
  | inl e ↦ rw (receive, e) (inl refl)
  | inr e ↦
      rw (receive, e)
        (received-IsReceived parse limit s (read_line limit fault s.pending)
          (read_line-IsNext limit fault s.pending))
]
