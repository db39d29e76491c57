-- ===== src/Demux/Fills.antt =====
-- `poll_fill_buf` of src/proxy/targets/demux.rs gives the head of the primary channel.
use farcri_rs.Prelude.{ℕ, zero, suc, ◌<◌, arith}
use farcri_rs.Demux.{Demux, Turn, again, done, turn, after, fill_loop, measure, poll_fill_buf}
use farcri_rs.Demux.Turns.{turn-Turns}
use farcri_rs.Demux.Keeps.{Fills, Turns, Fills-Keeps}

after-Fills :
    (n : ℕ) (d : Demux) (t : Turn)
    → measure d < suc n
    → Turns d t
    → ((d' : Demux) → measure d' < n → Fills d' (fill_loop n d'))
    → Fills d (after t (fill_loop n))
unfolding after
after-Fills n d (again d') h (k, less) go =
    Fills-Keeps d d' (fill_loop n d') k (go d' (omega (arith, h, less)))
after-Fills n d (done f) h t go = t

pub fill_loop-Fills : (n : ℕ) (d : Demux) → measure d < n → Fills d (fill_loop n d)
unfolding fill_loop
fill_loop-Fills zero d h = absurd (omega (arith, h))
fill_loop-Fills (suc n) d h =
    after-Fills n d (turn d.inner d) h (turn-Turns d.inner d.st d.writes d.log_out)
      (fill_loop-Fills n)

-- `poll_fill_buf` comes to an end for every reader and every standard output. A buffer that it gives is
-- not empty, and as far as it is consumed it is the head of what the primary channel still has; whatever
-- it gives, nothing of the primary channel is lost, nor of the log if the standard output does not
-- fail. It panics only if the reader comes to the end of the file.
pub poll_fill_buf-Fills : (d : Demux) → Fills d (poll_fill_buf d)
unfolding poll_fill_buf
poll_fill_buf-Fills d = fill_loop-Fills (suc (measure d)) d (omega arith)
