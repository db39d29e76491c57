-- ===== src/Slip/Chunks.antt =====
-- How the reader cuts its bytes into buffers does not matter to `read_frame`.
use farcri_rs.Prelude.{ℕ, zero, suc, List, [], ◌∷◌, ◌++◌, replicate, ◌≡◌, refl, sym, map, Bytes}
use farcri_rs.Slip.{
  ReadFrame, Fill, buffer, fill_pending, Poll, ready, pending, Scanned, process, scan, scan_step,
  nothing, action, append_frame, end_frame, fail, put_back, poll, finish_poll, Inner, Processed,
}

-- The bytes in a list of buffers.
abbrev pub flatten : List Bytes → Bytes
flatten [] = []
flatten (c ∷ cs) = c ++ flatten cs

-- A scan goes on where it stopped, or leaves what follows unread.
abbrev continue : Poll → Scanned → Bytes → Scanned
continue pending s ys = scan s.future ys
continue (ready x) s ys = record s { unread = s.unread ++ ys }

abbrev pub carry_on : Scanned → Bytes → Scanned
carry_on s ys = continue s.broke s ys

scan_step-append :
    (o : Inner × Processed) (rf : ReadFrame) (xs ys : Bytes)
    → ((rf' : ReadFrame) → scan rf' (xs ++ ys) ≡ carry_on (scan rf' xs) ys)
    → scan_step o rf (xs ++ ys) (λ rf'. scan rf' (xs ++ ys))
      ≡ carry_on (scan_step o rf xs (λ rf'. scan rf' xs)) ys
unfolding scan_step
scan_step-append (s, nothing) rf xs ys h = h _
scan_step-append (s, action (append_frame b)) rf xs ys h = h _
scan_step-append (s, action end_frame) rf xs ys h = refl
scan_step-append (s, fail e) rf xs ys h = refl

pub scan-append : (rf : ReadFrame) (xs ys : Bytes) → scan rf (xs ++ ys) ≡ carry_on (scan rf xs) ys
unfolding scan
scan-append rf [] ys = refl
scan-append rf (x ∷ xs) ys =
    scan_step-append (process rf.state x) rf xs ys (λ rf'. scan-append rf' xs ys)

put_back-buffers :
    (bs : Bytes) (cs : List Bytes)
    → (cs' : List Bytes) × (put_back bs (map buffer cs) ≡ map buffer cs')
      × (flatten cs' ≡ bs ++ flatten cs)
put_back-buffers [] cs = (cs, refl, refl)
put_back-buffers (b ∷ bs) cs = ((b ∷ bs) ∷ cs, refl, refl)

-- One poll over buffers does what a scan of their concatenation does: the same result, the same
-- state of the future, and buffers with the same bytes left in the reader.
pub record Agrees (p : Poll × ReadFrame × List Fill) (s : Scanned) : Type 0 where
  pub result : p.0 ≡ s.broke
  pub future : p.1 ≡ s.future
  pub left : List Bytes
  pub reader : p.2 ≡ map buffer left
  pub unread : flatten left ≡ s.unread

finish_poll-Agrees :
    (b : Poll) (s : Scanned) (cs : List Bytes) (next : Poll × ReadFrame × List Fill)
    → s.broke ≡ b
    → Agrees next (scan s.future (flatten cs))
    → Agrees (finish_poll b s (map buffer cs) next) (continue b s (flatten cs))
unfolding finish_poll
finish_poll-Agrees pending s cs next e h = h
finish_poll-Agrees (ready x) s cs next e h =
    let (cs', r, u) = put_back-buffers s.unread cs in
    record { result = sym e; future = refl; left = cs'; reader = r; unread = u }

-- `read_frame` gives the same result, keeps the same state and leaves the same bytes in the
-- reader however the bytes are cut into buffers.
pub poll-chunks :
    (rf : ReadFrame) (cs : List Bytes) → Agrees (poll rf (map buffer cs)) (scan rf (flatten cs))
unfolding poll
poll-chunks rf [] = record { result = refl; future = refl; left = []; reader = refl; unread = refl }
poll-chunks rf (c ∷ cs) = rw scan-append (
    finish_poll-Agrees (scan rf c).broke (scan rf c) cs (poll (scan rf c).future (map buffer cs))
      refl (poll-chunks (scan rf c).future cs))

abbrev Resumes :
    (poll' : Poll × ReadFrame × List Fill)
    → List Fill
    → Poll × ReadFrame × List Fill
    → Poll × ReadFrame × List Fill
    → Type 0
Resumes now r interrupted through = (interrupted ≡ (pending, now.1, r)) × (poll now.1 r ≡ through)

finish_poll-Resumes :
    (b : Poll) (s : Scanned) (cs : List Bytes) (r : List Fill)
    (now interrupted through : Poll × ReadFrame × List Fill)
    → (finish_poll b s (map buffer cs) now).0 ≡ pending
    → (now.0 ≡ pending → Resumes now r interrupted through)
    → Resumes
        (finish_poll b s (map buffer cs) now)
        r
        (finish_poll b s (map buffer cs ++ fill_pending ∷ r) interrupted)
        (finish_poll b s (map buffer cs ++ r) through)
unfolding finish_poll
finish_poll-Resumes pending s cs r now i t h later = later h
finish_poll-Resumes (ready x) s cs r now i t h later = cc

-- A poll that comes back pending loses nothing: polling its future again goes on as if the
-- reader had never been pending.
pub poll_resume :
    (rf : ReadFrame) (cs : List Bytes) (r : List Fill)
    → (poll rf (map buffer cs)).0 ≡ pending
    → (poll rf (map buffer cs ++ fill_pending ∷ r) ≡ (pending, (poll rf (map buffer cs)).1, r))
      × (poll (poll rf (map buffer cs)).1 r ≡ poll rf (map buffer cs ++ r))
unfolding poll
poll_resume rf [] r h = (refl, refl)
poll_resume rf (c ∷ cs) r h =
    finish_poll-Resumes (scan rf c).broke (scan rf c) cs r _ _ _ h
      (poll_resume (scan rf c).future cs r)

-- At the end of the file a poll of `read_frame` never becomes ready: however many empty buffers
-- the reader gives, the loop goes round once for each, and changes nothing.
pub poll_eof :
    (n : ℕ) (rf : ReadFrame) (r : List Fill)
    → poll rf (map buffer (replicate n []) ++ r) ≡ poll rf r
unfolding poll scan finish_poll
poll_eof zero rf r = refl
poll_eof (suc n) rf r = poll_eof n rf r
