-- ===== src/Handshake/Replies.antt =====
-- The target answers every request of the handshake, src/bencher/proxylink.rs.
use farcri_rs.Prelude.{
  ℕ, suc, ◌+◌, ◌-◌, ◌<◌, ◌≤◌, Bool, true, false, some, List, [], ◌∷◌, ◌++◌, length, ◌==◌, Bytes,
  ◌≡◌, refl, sym, ap, subst, ◌∙◌, arith, append-nil, append_assoc, length-append,
}
use farcri_rs.Buffer.{slice}
use farcri_rs.Protocol.{handshake_magic, handshake_nonce_len, handshake_end_magic}
use farcri_rs.Slip.Chunks.{flatten}
use farcri_rs.ProxyLink.{BencherIo, io_write}
use farcri_rs.Handshake.{
  magic0, end_magic0, magic_tail, end_magic_tail, handshake_packet, Feed, read_nonce, replied,
  packet_read, end_read, first_byte, Handshaken, linked, handshake_loop, new,
}
use farcri_rs.Handshake.Feeds.{Gets, next-Gives, read_matching-matched, read_nonce-read}

-- No byte is the first of a request.
abbrev pub IsJunk : Bytes → Type 0
IsJunk [] = Unit {0}
IsJunk (b ∷ bs) = ((b == magic0) ≡ false) × IsJunk bs

abbrev pub AreNonces : List Bytes → Type 0
AreNonces [] = Unit {0}
AreNonces (n ∷ ns) = (length n ≡ handshake_nonce_len) × AreNonces ns

abbrev pub packets : List Bytes → Bytes
packets [] = []
packets (n ∷ ns) = handshake_packet n ++ packets ns

junk-skipped :
    (f : ℕ) (out junk s : Bytes) (fd : Feed)
    → IsJunk junk
    → Gets out (junk ++ s) fd
    → (fd' : Feed) × (handshake_loop (length junk + f) false fd ≡ handshake_loop f false fd')
      × Gets out s fd'
unfolding handshake_loop first_byte
junk-skipped f out [] s fd h g = (fd, (let p : length {A = ℕ} [] + f ≡ f = omega arith in rw p), g)
junk-skipped f out (b ∷ junk) s fd (other, h) g =
    let (fd', e, g') = next-Gives out b (junk ++ s) fd g in
    let (fd'', e', g'') = junk-skipped f out junk s fd' h g' in
    let p : length (b ∷ junk) + f ≡ suc (length junk + f) = omega arith in
    (fd'', rw (p, e, other) e', g'')

packet-answered :
    (f : ℕ) (got : Bool) (out nonce s : Bytes) (fd : Feed)
    → length nonce ≡ handshake_nonce_len
    → Gets out (handshake_packet nonce ++ s) fd
    → (fd' : Feed) × (handshake_loop (suc f) got fd ≡ handshake_loop f true fd')
      × Gets (out ++ handshake_packet nonce) s fd'
unfolding handshake_loop first_byte packet_read replied
packet-answered f got out nonce s fd n g =
    let (fd₁, e₁, g₁) = next-Gives out magic0 (magic_tail ++ (nonce ++ s)) fd g in
    let (fd₂, e₂, g₂) = read_matching-matched out magic_tail (nonce ++ s) fd₁ g₁ in
    let (fd₃, e₃, g₃) = read_nonce-read out nonce s fd₂ g₂ in
    let e₄ : read_nonce handshake_nonce_len fd₂ ≡ some (nonce, fd₃) =
      subst (λ k. read_nonce k fd₂ ≡ some (nonce, fd₃)) n e₃ in
    (
      record fd₃ { io = io_write (handshake_packet nonce) fd₃.io },
      rw (e₁, e₂, e₄) refl,
      record {
        stream = g₃.stream;
        written = ap (λ o. o ++ handshake_packet nonce) g₃.written;
        pos_le = g₃.pos_le;
        len_le = g₃.len_le;
        room = g₃.room;
      },
    )

-- The link is empty and what was written is `out`; of what comes behind the handshake, `s`, some may
-- have been read with it.
abbrev pub IsLinked : Bytes → Bytes → Handshaken → Type 0
IsLinked out s (linked l) =
    (l.io.output ≡ out)
    × (l.buf_pos ≡ 0)
    × (l.buf_len ≡ 0)
    × (l.buf_scan ≡ 0)
    × (lost : Bytes) × (s ≡ lost ++ flatten l.io.input)
IsLinked out s h = ⊥

end-answered :
    (f : ℕ) (out s : Bytes) (fd : Feed)
    → Gets out (handshake_end_magic ++ s) fd
    → IsLinked (out ++ handshake_end_magic) s (handshake_loop (suc f) true fd)
unfolding handshake_loop first_byte end_read
end-answered f out s fd g =
    let (fd₁, e₁, g₁) = next-Gives out end_magic0 (end_magic_tail ++ s) fd g in
    let (fd₂, e₂, g₂) = read_matching-matched out end_magic_tail s fd₁ g₁ in
    rw (e₁, e₂)
      (
        ap (λ o. o ++ handshake_end_magic) g₂.written,
        refl,
        refl,
        refl,
        slice fd₂.pos fd₂.len fd₂.buf,
        sym g₂.stream,
      )

packets-answered :
    (f : ℕ) (out : Bytes) (nonces : List Bytes) (s : Bytes) (fd : Feed)
    → AreNonces nonces
    → Gets out (packets nonces ++ s) fd
    → (fd' : Feed) × (handshake_loop (length nonces + f) true fd ≡ handshake_loop f true fd')
      × Gets (out ++ packets nonces) s fd'
packets-answered f out [] s fd h g = (
  fd,
  (let p : length {A = Bytes} [] + f ≡ f = omega arith in rw p),
  subst (λ o. Gets o s fd) (sym (append-nil out)) g,
)
packets-answered f out (n ∷ ns) s fd (h, hs) g =
    let packet = handshake_packet n in
    let (fd₁, e₁, g₁) =
      packet-answered (length ns + f) true out n (packets ns ++ s) fd h
        (subst (λ x. Gets out x fd) (append_assoc packet (packets ns) s) g) in
    let (fd₂, e₂, g₂) = packets-answered f (out ++ packet) ns s fd₁ hs g₁ in
    let p : length (n ∷ ns) + f ≡ suc (length ns + f) = omega arith in
    (fd₂, rw p (e₁ ∙ e₂), subst (λ o. Gets o s fd₂) (append_assoc out packet (packets ns)) g₂)

pub length-packets : (ns : List Bytes) → length ns ≤ length (packets ns)
length-packets [] = omega arith
length-packets (n ∷ ns) = omega (
  arith,
  length-packets ns,
  length-append (handshake_packet n) (packets ns),
  length-append handshake_magic n,
)

-- If the input begins with bytes none of which begins a request, and goes on with one or more requests
-- and the end, the target gets through: it has sent back each request and the end, and begins with an
-- empty buffer. Bytes behind the end may have been read with it, and are then lost.
pub new-IsLinked :
    (io : BencherIo) (buf junk nonce : Bytes) (nonces : List Bytes) (s : Bytes)
    → 0 < length buf
    → IsJunk junk
    → AreNonces (nonce ∷ nonces)
    → flatten io.input ≡ junk ++ (packets (nonce ∷ nonces) ++ (handshake_end_magic ++ s))
    → IsLinked ((io.output ++ packets (nonce ∷ nonces)) ++ handshake_end_magic) s (new io buf)
unfolding new
new-IsLinked io buf junk nonce nonces s room j (n, ns) e =
    let total = packets (nonce ∷ nonces) ++ (handshake_end_magic ++ s) in
    let rest = suc (length (flatten io.input)) - (length junk + (length nonces + 2)) in
    let fuel : suc (length (flatten io.input)) ≡ length junk + suc (length nonces + suc rest) =
      omega (
        arith,
        ap length e,
        length-append junk total,
        length-append (packets (nonce ∷ nonces)) (handshake_end_magic ++ s),
        length-append (handshake_packet nonce) (packets nonces),
        length-append handshake_magic nonce,
        length-packets nonces,
      ) in
    let behind = packets nonces ++ (handshake_end_magic ++ s) in
    let fd : Feed = record { io = io; buf = buf; pos = 0; len = 0 } in
    let (fd₁, e₁, g₁) =
      junk-skipped (suc (length nonces + suc rest)) io.output junk
        (handshake_packet nonce ++ behind) fd j
        (record {
          stream =
              e
              ∙ ap (λ x. junk ++ x)
                  (append_assoc (handshake_packet nonce) (packets nonces)
                    (handshake_end_magic ++ s));
          written = refl;
          pos_le = omega arith;
          len_le = omega arith;
          room = room;
        }) in
    let (fd₂, e₂, g₂) =
      packet-answered (length nonces + suc rest) false io.output nonce behind fd₁ n g₁ in
    let (fd₃, e₃, g₃) =
      packets-answered (suc rest) (io.output ++ handshake_packet nonce) nonces
        (handshake_end_magic ++ s) fd₂ ns g₂ in
    subst (IsLinked ((io.output ++ packets (nonce ∷ nonces)) ++ handshake_end_magic) s)
      (sym (ap (λ k. handshake_loop k false fd) fuel ∙ e₁ ∙ e₂ ∙ e₃))
      (subst (λ o. IsLinked (o ++ handshake_end_magic) s (handshake_loop (suc rest) true fd₃))
        (append_assoc io.output (handshake_packet nonce) (packets nonces))
        (end-answered rest _ s fd₃ g₃))
