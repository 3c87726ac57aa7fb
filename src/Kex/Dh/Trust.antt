-- ===== src/Kex/Dh/Trust.antt =====
-- When a Diffie-Hellman exchange succeeds.
use eessh.Prelude.{
  ℕ, ◌≡◌, sym, ◌∙◌, ap, subst, List, ◌==◌, Bool-cases, inl, inr, Result, ok, Status, >>=-eq-ok,
  failed_not_ok, lift-step, check-step, gets-step,
}
use eessh.Buffer.{Allocator}
use eessh.Reader.{Reader}
use eessh.Pubkey.{verify_signature}
use eessh.Stream.{Crypto}
use eessh.Connection.{packet_type}
use eessh.Kex.Dh.Finish.{
  finish-stored, IsSetOnce, IsFrame, >>=-IsFrame, lift-IsFrame, on_peer-IsFrame,
}
use eessh.Kex.Exchange.{Primitives, Kex, Exchange, receive}
use eessh.Kex.Dh.{
  DhAlgo, Identity, check_server_identity, Reply, read_reply_strings, send_init_msg, kex_hash,
  write_transcript, authenticate, use_reply, by_reply, read_reply, own_algo, dh_run,
}
use eessh.Constants.{msg_kexdh_reply}

module _ (k : Crypto) (a : Allocator) (p : Primitives k) (fuel beyond : ℕ) (id : Identity) where
  -- The server has proved who it is: its key has signed the hash of the whole exchange, the client
  -- has approved the key, and the secret is the one of this exchange.
  pub record Authentic (kex : Kex) : Type 0 where
    pub dh : p.Dh
    pub reply : Reply
    pub client_pubkey : List ℕ
    pub own : p.dh_get_pubkey dh ≡ ok client_pubkey
    pub computed : p.dh_compute_key dh reply.pubkey ≡ ok kex.shared_secret
    pub hashed :
        kex_hash k a p fuel beyond id kex reply.host_key client_pubkey reply.pubkey
          kex.shared_secret
        ≡ ok kex.exchange_hash
    pub signed :
        verify_signature p.hash_compute p.rsa_verify beyond kex.pubkey_type reply.host_key
          reply.signature kex.exchange_hash
        ≡ ok tt
    pub approved : check_server_identity id reply.host_key ≡ ok tt

  authentic :
      (dh : p.Dh) (reply : Reply) (kex : Kex) (shared_secret client_pubkey exchange_hash : List ℕ)
      → p.dh_get_pubkey dh ≡ ok client_pubkey
      → p.dh_compute_key dh reply.pubkey ≡ ok shared_secret
      → kex_hash k a p fuel beyond id kex reply.host_key client_pubkey reply.pubkey shared_secret
        ≡ ok exchange_hash
      → verify_signature p.hash_compute p.rsa_verify beyond kex.pubkey_type reply.host_key
          reply.signature exchange_hash
        ≡ ok tt
      → check_server_identity id reply.host_key ≡ ok tt
      → Authentic (record kex { shared_secret = shared_secret; exchange_hash = exchange_hash })
  unfolding kex_hash write_transcript
  authentic dh reply kex shared_secret client_pubkey exchange_hash e1 e2 e3 e4 e5 = record {
    dh = dh;
    reply = reply;
    client_pubkey = client_pubkey;
    own = e1;
    computed = e2;
    hashed = e3;
    signed = e4;
    approved = e5;
  }

  use_reply-Authentic :
      (dh : p.Dh) (reply : Reply) (s : Exchange k) {s' : Exchange k}
      → use_reply k a p fuel beyond id dh reply s ≡ (ok tt, s')
      → Authentic s'.kex
        × IsSetOnce k a p fuel beyond id s'.kex.exchange_hash s.session_id s'.session_id
  unfolding use_reply authenticate
  use_reply-Authentic dh reply s {s'} h =
      let (shared_secret, e1, g1) = lift-step (p.dh_compute_key dh reply.pubkey) _ s h in
      let (client_pubkey, e2, g2) = lift-step (p.dh_get_pubkey dh) _ s g1 in
      let g3 =
        gets-step (λ (q : Exchange k). q.kex)
          (authenticate k a p fuel beyond id reply shared_secret client_pubkey) s g2 in
      let (exchange_hash, e4, g4) =
        lift-step
          (kex_hash k a p fuel beyond id s.kex reply.host_key client_pubkey reply.pubkey
            shared_secret)
          _ s g3 in
      let (e5, g5) =
        check-step
          (verify_signature p.hash_compute p.rsa_verify beyond s.kex.pubkey_type reply.host_key
            reply.signature exchange_hash)
          _ s g4 in
      let (e6, g6) = check-step (check_server_identity id reply.host_key) _ s g5 in
      let stored = finish-stored k a p fuel beyond id shared_secret exchange_hash s g6 in
      (
        subst Authentic (sym stored.0)
            (authentic dh reply s.kex shared_secret client_pubkey exchange_hash e2 e1 e4 e5 e6),
        subst (λ x. IsSetOnce k a p fuel beyond id x s.session_id s'.session_id)
            (ap (λ (q : Kex). q.exchange_hash) (sym stored.0)) stored.1,
      )

  init_msg-IsFrame :
      (dh : p.Dh) → IsFrame k a p fuel beyond id (send_init_msg k a p fuel beyond id dh)
  unfolding send_init_msg
  init_msg-IsFrame dh =
      search
        (
          >>=-IsFrame k a p fuel beyond id,
          lift-IsFrame k a p fuel beyond id,
          on_peer-IsFrame k a p fuel beyond id,
        )
        depth 8

  read_reply-Authentic :
      (dh : p.Dh) (s : Exchange k) {s' : Exchange k}
      → read_reply k a p fuel beyond id dh s ≡ (ok tt, s')
      → Authentic s'.kex
        × IsSetOnce k a p fuel beyond id s'.kex.exchange_hash s.session_id s'.session_id
  unfolding read_reply by_reply
  read_reply-Authentic dh s {s'} h =
      let (pack, t, e, g) = >>=-eq-ok (receive k a p fuel) (by_reply k a p fuel beyond id dh) h in
      let kept = ap (λ (q : Result Reader × Exchange k). q.1.session_id) e in
      elim (Bool-cases (packet_type pack == msg_kexdh_reply)) [
        | inr other ↦ absurd (failed_not_ok (rw other at g))
        | inl good ↦
            let (reply, e', g') =
              lift-step (read_reply_strings pack).0 (use_reply k a p fuel beyond id dh) t
                (rw good at g) in
            let done = use_reply-Authentic dh reply t g' in
            (
              done.0,
              subst (λ x. IsSetOnce k a p fuel beyond id s'.kex.exchange_hash x s'.session_id)
                  (sym kept) done.1,
            )
      ]

  -- A successful Diffie-Hellman exchange is with an authentic server: its key has signed the hash of
  -- both version strings, both SSH_MSG_KEXINIT, its key, both public numbers and the secret, the
  -- client's check has approved this key, and the secret that is kept is the one of this exchange.
  -- The session id is set once: without one the hash of this exchange becomes the session id, and
  -- a session id that is there stays.
  pub dh_run-Authentic :
      (s s' : Exchange k)
      → dh_run k a p fuel beyond id s ≡ (ok tt, s')
      → Authentic s'.kex
        × IsSetOnce k a p fuel beyond id s'.kex.exchange_hash s.session_id s'.session_id
  unfolding dh_run
  dh_run-Authentic s s' h =
      let (algo, s1, e1, g1) = >>=-eq-ok (own_algo k a p fuel beyond id) _ {s = s} h in
      let (dh, e2, g2) = lift-step (p.dh_new algo.gen algo.modulus) _ s1 g1 in
      let (x, s3, e3, g3) = >>=-eq-ok (send_init_msg k a p fuel beyond id dh) _ {s = s1} g2 in
      let done = read_reply-Authentic dh s3 g3 in
      let started = ap (λ (q : Result DhAlgo × Exchange k). q.1.session_id) e1 in
      let sent = ap (λ (q : Status × Exchange k). q.1.session_id) e3 in
      (
        done.0,
        subst (λ x. IsSetOnce k a p fuel beyond id s'.kex.exchange_hash x s'.session_id)
            (sym sent ∙ ((init_msg-IsFrame dh).keeps s1).1 ∙ sym started) done.1,
      )
