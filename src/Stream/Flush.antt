-- ===== src/Stream/Flush.antt =====
-- ssh_stream_send_flush keeps the order of what is sent.
use eessh.Prelude.{
  ℕ, ◌+◌, ◌≡◌, sym, ◌∙◌, ap, ap₂, subst, List, ◌++◌, append_assoc, drop, length, length-append,
  length-take, drop-append, Result, Status, ok, fail, ok_injective, >>=-eq-ok, arith,
}
use eessh.Buffer.{Buffer, Allocator, contents, remove_data}
use eessh.Buffer.Valid.{IsValid}
use eessh.Buffer.Remove.{remove_data_ok}
use eessh.Network.{net_write}
use eessh.Network.Write.{net_write_prefix}
use eessh.Stream.{Crypto, Stream, on_enc, count_of, write_out, send_flush}

module _ (k : Crypto) (a : Allocator) where
  out_of : Stream k → List ℕ
  out_of s = (net_write s.departures (contents s.buf_enc)).1

  split_of :
      (s : Stream k) (rest : List ℕ)
      → (net_write s.departures (contents s.buf_enc)).1 ++ rest ≡ contents s.buf_enc
      → out_of s ++ rest ≡ contents s.buf_enc
  unfolding out_of
  split_of s rest e = e

  -- What has been sent, and what waits behind it
  abbrev pub outgoing : Stream k → List ℕ
  outgoing s = s.sent ++ contents s.buf_enc

  -- The network buffer after its first `n` bytes were sent
  rest_of :
      (out rest : List ℕ) (b : Buffer)
      → IsValid b
      → out ++ rest ≡ contents b
      → IsValid (remove_data 0 (length out) b).1
        × (contents (remove_data 0 (length out) b).1 ≡ rest)
  rest_of out rest b v e =
      let (done, valid, cut) =
        remove_data_ok 0 (length out) v
          (omega (arith, ap length e, length-append out rest, length-take b.len b.mem)) in
      (
        valid,
        cut
            ∙ ap (drop (0 + length out)) (sym e)
            ∙ drop-append (0 + length out) out rest (omega arith),
      )

  counted : (r : Status) (m : ℕ) {n : ℕ} → count_of k a r m ≡ ok n → n ≡ m
  counted (ok _) m h = sym (ok_injective h)
  counted (fail e) m h = cc

  -- A flush that succeeds
  write_out-ok :
      (s : Stream k) {n : ℕ} {t : Stream k}
      → write_out k a s ≡ (ok n, t)
      → (n ≡ length (out_of s)) × (t.sent ≡ s.sent ++ out_of s) × (t.buf_enc ≡ s.buf_enc)
  unfolding write_out out_of
  write_out-ok s h = (
    counted _ (length (out_of s)) (ap (λ (q : Result ℕ × Stream k). q.0) h),
    ap (λ (q : Result ℕ × Stream k). q.1.sent) (sym h),
    ap (λ (q : Result ℕ × Stream k). q.1.buf_enc) (sym h),
  )

  -- A flush that succeeds loses, repeats and reorders nothing: what has gone to the socket, followed
  -- by what still waits in the buffer, is what it was before, and the buffer stays valid.
  pub send_flush_conserves :
      (s s' : Stream k)
      → IsValid s.buf_enc
      → send_flush k a s ≡ (ok tt, s')
      → IsValid s'.buf_enc × (outgoing s' ≡ outgoing s)
  unfolding send_flush
  send_flush_conserves s s' v h =
      let (n, t, e, g) =
        >>=-eq-ok (write_out k a) (λ len. on_enc k a (remove_data 0 len)) {s = s} h in
      let w = write_out-ok s e in
      let (rest, split) = net_write_prefix s.departures (contents s.buf_enc) in
      let (valid, left) = rest_of (out_of s) rest s.buf_enc v (split_of s rest split) in
      let after = ap (λ (q : Status × Stream k). q.1) g in
      let cut = ap₂ (λ m b. (remove_data 0 m b).1) w.0 w.2 in
      let buffer = ap (λ (q : Stream k). q.buf_enc) (sym after) ∙ cut in
      (
        subst IsValid (sym buffer) valid,
        ap₂ ◌++◌ (ap (λ (q : Stream k). q.sent) (sym after) ∙ w.1) (ap contents buffer ∙ left)
            ∙ append_assoc s.sent (out_of s) rest
            ∙ ap (λ ys. s.sent ++ ys) (split_of s rest split),
      )
