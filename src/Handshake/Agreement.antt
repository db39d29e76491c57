-- ===== src/Handshake/Agreement.antt =====
-- The handshake of src/proxy/targetlink.rs with that of src/bencher/proxylink.rs.
use farcri_rs.Prelude.{
  ℕ, zero, suc, ◌<◌, ◌≤◌, ◌||◌, some, List, [], ◌∷◌, ◌++◌, map, length, drop, replicate, ◌==◌,
  Bytes, ◌≡◌, refl, sym, ap, subst, ◌∙◌, arith, inl, inr, Bool-cases, append_assoc, length-append,
  length-replicate,
}
use farcri_rs.Protocol.{handshake_magic, handshake_nonce_len, handshake_end_magic}
use farcri_rs.Slip.{Fill, buffer}
use farcri_rs.Slip.Chunks.{flatten}
use farcri_rs.ProxyLink.{BencherIo}
use farcri_rs.Futures.{Exact, Skipped, found, not_found, failed, waits, skip_until_pattern}
use farcri_rs.Futures.Find.{after}
use farcri_rs.Futures.ReadExact.{eof, IsReadExact}
use farcri_rs.Futures.Skip.{AreWide, Skips, skip_until_pattern-Skips}
use farcri_rs.Handshake.{
  magic0, end_magic0, magic_tail, sanitize, handshake_packet, Handshaken, linked, bad_end, blocked,
  unfinished, new, Connected, connected, eof_in_handshake, read_failed, timed_out, unexpected_byte,
  out_of_fuel, stage_2, available, requests, drop_responses, connect,
}
use farcri_rs.Handshake.Replies.{IsJunk, AreNonces, packets, length-packets, IsLinked, new-IsLinked}
use farcri_rs.Handshake.Requests.{
  IsConnected, drop_responses-IsConnected, requests-packets, after-junk,
}

length-map : (f : ℕ → ℕ) (xs : Bytes) → length (map f xs) ≡ length xs
length-map f [] = refl
length-map f (x ∷ xs) = ap suc (length-map f xs)

AreNonces-replicate :
    (k : ℕ) (n : Bytes) → length n ≡ handshake_nonce_len → AreNonces (replicate k n)
AreNonces-replicate zero n h = tt
AreNonces-replicate (suc k) n h = (h, AreNonces-replicate k n h)

-- What the host writes in the handshake.
abbrev pub written_by_host : Bytes → ℕ → Bytes
written_by_host random k =
    requests (handshake_packet (map sanitize random)) k ++ handshake_end_magic

IsJunk-append : (xs ys : Bytes) → IsJunk xs → IsJunk ys → IsJunk (xs ++ ys)
IsJunk-append [] ys h k = k
IsJunk-append (x ∷ xs) ys (e, h) k = (e, IsJunk-append xs ys h k)

drop-IsJunk : (n : ℕ) (xs : Bytes) → IsJunk xs → IsJunk (drop n xs)
drop-IsJunk zero xs h = h
drop-IsJunk (suc n) [] h = tt
drop-IsJunk (suc n) (x ∷ xs) (e, h) = drop-IsJunk n xs h

sanitize-IsJunk : (random : Bytes) → IsJunk (map sanitize random)
sanitize-IsJunk [] = tt
sanitize-IsJunk (x ∷ random) = (
  elim (Bool-cases (x == magic0 || x == end_magic0)) [
    | inl first ↦ rw first refl
    | inr other ↦ rw other (ground arith)
  ],
  sanitize-IsJunk random,
)

-- What is left of a request whose first bytes were lost does not look like the beginning of another.
pub request_tail-IsJunk :
    (random : Bytes) (n : ℕ) → IsJunk (drop (suc n) (handshake_packet (map sanitize random)))
request_tail-IsJunk random n = drop-IsJunk n (magic_tail ++ map sanitize random) (
    IsJunk-append magic_tail _
      (
        refl,
        (
          refl,
          (
            refl,
            (refl, (refl, (refl, (refl, (refl, (refl, (refl, (refl, (refl, (refl, tt)))))))))),
          ),
        ),
      )
      (sanitize-IsJunk random))

available-buffers : (cs : List Bytes) → available (map buffer cs ++ eof) ≡ length (flatten cs)
available-buffers [] = refl
available-buffers (c ∷ cs) = omega (arith, available-buffers cs, length-append c (flatten cs))

stage_2-IsConnected :
    (read_exact : ℕ → List Fill → Exact) (law : IsReadExact read_exact) (nonce written s : Bytes)
    (m : ℕ) (x : Skipped)
    → Skips (some (packets (replicate m nonce) ++ (handshake_end_magic ++ s))) x
    → IsConnected
        (written ++ handshake_end_magic)
        s
        (stage_2 read_exact (handshake_packet nonce) written x)
unfolding stage_2
stage_2-IsConnected read_exact law nonce written s m (found r) (left, e, f, w) =
    let packet = handshake_packet nonce in
    let sent = written ++ handshake_end_magic in
    let behind = handshake_end_magic ++ s in
    let ps = replicate m nonce in
    let enough : m ≤ available (map buffer left ++ eof) = omega (
      arith,
      available-buffers left,
      ap length f,
      length-append (packets ps) behind,
      length-packets ps,
      length-replicate m nonce,
    ) in
    subst (λ r. IsConnected sent s (drop_responses read_exact (suc (available r)) packet sent r))
      (sym e) (drop_responses-IsConnected read_exact law nonce m _ sent s left enough w f)
stage_2-IsConnected read_exact law nonce written s m not_found h = elim h [ ]
stage_2-IsConnected read_exact law nonce written s m (failed e) h = elim h [ ]
stage_2-IsConnected read_exact law nonce written s m waits h = elim h [ ]

-- Let the reader's buffers hold, behind some bytes none of which begins a request, one or more copies of
-- the request and then the end; and let none of them be shorter than a request less one byte. Then the host
-- gets through, whatever the number of its requests: the reader holds just what comes behind the end.
pub connect-IsConnected :
    (read_exact : ℕ → List Fill → Exact) (law : IsReadExact read_exact) (random : Bytes) (k m : ℕ)
    (junk s h c : Bytes) (cs : List Bytes)
    → length random ≡ handshake_nonce_len
    → IsJunk junk
    → length h ≡ 29
    → AreWide 29 (c ∷ cs)
    → h ++ flatten (c ∷ cs)
      ≡ junk ++ (packets (replicate (suc m) (map sanitize random)) ++ (handshake_end_magic ++ s))
    → IsConnected
        (written_by_host random k)
        s
        (connect read_exact random k (map buffer ((h ++ c) ∷ cs) ++ eof))
unfolding connect
connect-IsConnected read_exact law random k m junk s h c cs n j l wide e =
    let nonce = map sanitize random in
    let packet = handshake_packet nonce in
    let ps = packets (replicate m nonce) in
    let behind = handshake_end_magic ++ s in
    let n' : length packet ≡ suc (length h) =
      omega (arith, length-append handshake_magic nonce, length-map sanitize random, n, l) in
    let skips =
      skip_until_pattern-Skips read_exact law packet h c cs n'
        (subst (λ p. AreWide p (c ∷ cs)) (sym l) wide) in
    let first : after packet (h ++ flatten (c ∷ cs)) ≡ some (ps ++ behind) =
      ap (after packet) (e ∙ ap (λ x. junk ++ x) (append_assoc packet ps behind))
      ∙ after-junk nonce junk (ps ++ behind) j in
    stage_2-IsConnected read_exact law nonce (requests packet k) s m _ (
      subst
        (λ o. Skips o (skip_until_pattern read_exact packet (map buffer ((h ++ c) ∷ cs) ++ eof)))
        first skips)

-- What the target has written when it is through.
abbrev pub sent : Handshaken → Bytes
sent (linked l) = l.io.output
sent h = []

linked-sent : (out s : Bytes) (h : Handshaken) → IsLinked out s h → sent h ≡ out
linked-sent out s (linked l) e = e.0
linked-sent out s bad_end e = elim e [ ]
linked-sent out s blocked e = elim e [ ]
linked-sent out s unfinished e = elim e [ ]

connected_at_end :
    (written : Bytes) (x : Connected) → IsConnected written [] x → x ≡ connected eof written
connected_at_end written (connected r w) ([], e, f, full, ew) = λ i. connected (e i) (ew i)
connected_at_end written (connected r w) (c ∷ cs, e, f, (pos, full), ew) =
    absurd (omega (arith, pos, ap length f, length-append c (flatten cs)))
connected_at_end written eof_in_handshake h = elim h [ ]
connected_at_end written (read_failed e) h = elim h [ ]
connected_at_end written timed_out h = elim h [ ]
connected_at_end written (unexpected_byte b) h = elim h [ ]
connected_at_end written out_of_fuel h = elim h [ ]

-- Let the target read, behind bytes none of which begins a request, what the host writes; and let the host
-- read, behind such bytes and in buffers that are not shorter than a request less one byte, what the target
-- has written. Then both get through, however often the host repeats its request: neither has
-- anything of the handshake left to read, and each has written the same bytes.
pub handshake-Agreed :
    (read_exact : ℕ → List Fill → Exact) (law : IsReadExact read_exact) (random : Bytes) (k : ℕ)
    (io : BencherIo) (buf junk junk' h c : Bytes) (cs : List Bytes)
    → length random ≡ handshake_nonce_len
    → io.output ≡ []
    → 0 < length buf
    → IsJunk junk
    → IsJunk junk'
    → length h ≡ 29
    → AreWide 29 (c ∷ cs)
    → flatten io.input ≡ junk ++ written_by_host random k
    → h ++ flatten (c ∷ cs) ≡ junk' ++ sent (new io buf)
    → IsLinked (written_by_host random k) [] (new io buf)
      × (connect read_exact random k (map buffer ((h ++ c) ∷ cs) ++ eof)
          ≡ connected eof (written_by_host random k))
handshake-Agreed read_exact law random k io buf junk junk' h c cs n out room j j' l wide e e' =
    let nonce = map sanitize random in
    let len : length nonce ≡ handshake_nonce_len = length-map sanitize random ∙ n in
    let same : written_by_host random k ≡ packets (replicate (suc k) nonce) ++ handshake_end_magic =
      ap (λ x. x ++ handshake_end_magic) (requests-packets nonce k) in
    let target =
      subst (λ o. IsLinked o [] (new io buf))
        (ap (λ o. (o ++ packets (replicate (suc k) nonce)) ++ handshake_end_magic) out ∙ sym same)
        (new-IsLinked io buf junk nonce (replicate k nonce) [] room j
          (len, AreNonces-replicate k nonce len) (e ∙ ap (λ x. junk ++ x) same)) in
    (
      target,
      connected_at_end _ _ (
          connect-IsConnected read_exact law random k k junk' [] h c cs n j' l wide
            (e' ∙ ap (λ x. junk' ++ x) (linked-sent _ [] (new io buf) target ∙ same))),
    )
