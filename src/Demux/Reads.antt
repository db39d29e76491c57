-- ===== src/Demux/Reads.antt =====
-- A client that calls `poll_read` of src/proxy/targets/demux.rs again and again.
use farcri_rs.Prelude.{
  ℕ, ◌+◌, ◌≤◌, subst, min, Option, none, some, List, [], ◌∷◌, ◌++◌, length, take, drop, Bytes, ◌≡◌,
  refl, sym, ap, ◌∙◌, arith, append_assoc, length-take,
}
use farcri_rs.Buffer.{overwrite, take-exact}
use farcri_rs.Demux.{
  Demux, Filled, filled, failed, waits, panicked, out_of_fuel, Read, read, not_read, consumed,
  copied, consume, poll_fill_buf, poll_read,
}
use farcri_rs.Demux.Keeps.{primary_left, log_left, NoErrors, Ends, Keeps, Fills, IsPayload}
use farcri_rs.Demux.Fills.{poll_fill_buf-Fills}

-- The bytes that the client has, and the demultiplexer, unless it has panicked.
abbrev onto : Bytes → Bytes × Option Demux → Bytes × Option Demux
onto bs (cs, d) = (bs ++ cs, d)

-- What follows a read: it is in the caller's buffer.
abbrev went : Read → (Demux → Bytes × Option Demux) → Bytes × Option Demux
went (read n buf d) next = onto (take n buf) (next d)
went (not_read (failed e d)) next = next d
went (not_read (waits d)) next = next d
went (not_read _) next = ([], none)

-- Reads into buffers.
unfoldable pub session : List Bytes → Demux → Bytes × Option Demux
unfolding poll_read
session [] d = ([], some d)
session (buf ∷ bufs) d = went (poll_read buf d) (session bufs)

-- The bytes are the head of the primary channel; the log is in the standard output, or still to come.
abbrev pub Splits : Demux → Bytes × Option Demux → Type 0
Splits d (bs, some d') =
    (bs ++ primary_left d' ≡ primary_left d)
    × (NoErrors d.writes → d'.log_out ++ log_left d' ≡ d.log_out ++ log_left d)
Splits d (bs, none) = Ends d.inner × (rest : Bytes) × (bs ++ rest ≡ primary_left d)

Keeps-Splits : (d d' : Demux) (o : Bytes × Option Demux) → Keeps d d' → Splits d' o → Splits d o
Keeps-Splits d d' (bs, some e) k (p, l) = (p ∙ k.primary, λ h. l (k.errors h) ∙ k.log h)
Keeps-Splits d d' (bs, none) k (h, rest, p) = (k.ends h, rest, p ∙ k.primary)

-- The client reads `n` bytes of the buffer.
read-Splits :
    (n : ℕ) (xs : Bytes) (d : Demux) (o : Bytes × Option Demux)
    → n ≤ length xs
    → IsPayload xs d
    → Splits (consumed n d) o
    → Splits d (onto (take n xs) o)
read-Splits n xs d (bs, some e) h p (q, l) =
    let (same, log) = p.consumes n h in
    (
      append_assoc (take n xs) bs (primary_left e) ∙ ap (λ ys. take n xs ++ ys) q ∙ sym same,
      λ a. l a ∙ ap (λ ys. d.log_out ++ ys) (sym log),
    )
read-Splits n xs d (bs, none) h p (a, rest, q) =
    let (same, log) = p.consumes n h in
    (p.at_end n a, rest, append_assoc (take n xs) bs rest ∙ ap (λ ys. take n xs ++ ys) q ∙ sym same)

take-overwrite :
    (n : ℕ) (xs buf : Bytes) → n ≤ length xs → take n (overwrite 0 (take n xs) buf) ≡ take n xs
take-overwrite n xs buf h =
    take-exact n (take n xs) (drop (0 + length (take n xs)) buf)
      (omega (arith, h, length-take n xs))

copied-Splits :
    (buf : Bytes) (d : Demux) (f : Filled) (next : Demux → Bytes × Option Demux)
    → Fills d f
    → ((d' : Demux) → Splits d' (next d'))
    → Splits d (went (copied buf f) next)
unfolding copied consume
copied-Splits buf d (filled xs d') next (k, p) h =
    let n = min (length xs) (length buf) in
    let fits : n ≤ length xs = omega arith in
    let o = next (consumed n d') in
    Keeps-Splits d d' (onto (take n (overwrite 0 (take n xs) buf)) o) k (
      subst (λ ys. Splits d' (onto ys o)) (sym (take-overwrite n xs buf fits))
        (read-Splits n xs d' o fits p (h (consumed n d'))))
copied-Splits buf d (failed e d') next k h = Keeps-Splits d d' (next d') k (h d')
copied-Splits buf d (waits d') next k h = Keeps-Splits d d' (next d') k (h d')
copied-Splits buf d panicked next e h = (e, primary_left d, refl)
copied-Splits buf d out_of_fuel next e h = elim e [ ]

-- However the reader cuts the stream into buffers, whatever room the caller gives, and however much
-- the standard output takes at a time: the bytes that a client of the demultiplexer reads, followed by
-- what is still to come, are the primary channel of the stream; what the standard output took, followed
-- by what is still to come, is the log, if the standard output did not fail. A panic comes only of the end
-- of the file, and the bytes read up to it are a head of the primary channel.
pub session-Splits : (bufs : List Bytes) (d : Demux) → Splits d (session bufs d)
unfolding session poll_read
session-Splits [] d = (refl, λ h. refl)
session-Splits (buf ∷ bufs) d =
    copied-Splits buf d (poll_fill_buf d) (session bufs) (poll_fill_buf-Fills d)
      (session-Splits bufs)
