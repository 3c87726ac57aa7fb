-- ===== src/Kex/Dh/Failure.antt =====
-- What a Diffie-Hellman exchange has done when it fails.
use eessh.Prelude.{
  lift, ℕ, ◌≡◌, List, ◌==◌, Bool-cases, inl, inr, Result, ok, refl, ◌⊎◌, fail, Act, ◌>>=◌, true,
  proceed,
}
use eessh.Buffer.{Allocator}
use eessh.Reader.{Reader}
use eessh.Pubkey.{verify_signature}
use eessh.Stream.{Crypto}
use eessh.Connection.{packet_type}
use eessh.Kex.Exchange.{Primitives, Kex, Exchange, receive}
use eessh.Kex.Dh.{
  Identity, check_server_identity, Reply, read_reply_strings, kex_hash, authenticate, use_reply,
  by_reply, read_reply,
}
use eessh.Constants.{msg_kexdh_reply}

module _ (k : Crypto) (a : Allocator) (p : Primitives k) (fuel beyond : ℕ) (id : Identity) where
  -- A chain that leaves everything as it was, unless some fact holds.
  lift_else :
      {A : Type 0} (r : Result A) (f : A → Act (Exchange k) Unit) (s : Exchange k) {Q : Type 0}
      → ((x : A) → r ≡ ok x → ((f x s).1 ≡ s) ⊎ Q)
      → (((lift r >>= f) s).1 ≡ s) ⊎ Q
  unfolding ◌>>=◌
  lift_else (ok x) f s g = g x refl
  lift_else (fail e) f s g = inl refl

  -- What a reply of the server proves in an exchange: its key has signed the hash of the exchange,
  -- with the secret and the public numbers of both sides, and the client has approved the key.
  pub record Proves (dh : p.Dh) (kex : Kex) (reply : Reply) : Type 0 where
    pub shared_secret : List ℕ
    pub client_pubkey : List ℕ
    pub exchange_hash : List ℕ
    pub computed : p.dh_compute_key dh reply.pubkey ≡ ok shared_secret
    pub own : p.dh_get_pubkey dh ≡ ok client_pubkey
    pub hashed :
        kex_hash k a p fuel beyond id kex reply.host_key client_pubkey reply.pubkey shared_secret
        ≡ ok exchange_hash
    pub signed :
        verify_signature p.hash_compute p.rsa_verify beyond kex.pubkey_type reply.host_key
          reply.signature exchange_hash
        ≡ ok tt
    pub approved : check_server_identity id reply.host_key ≡ ok tt

  use_reply_else :
      (dh : p.Dh) (reply : Reply) (s : Exchange k)
      → ((use_reply k a p fuel beyond id dh reply s).1 ≡ s) ⊎ Proves dh s.kex reply
  unfolding use_reply authenticate ◌>>=◌
  use_reply_else dh reply s = lift_else (p.dh_compute_key dh reply.pubkey) _ s (λ shared_secret e1.
      lift_else (p.dh_get_pubkey dh) _ s (λ client_pubkey e2.
        lift_else
          (kex_hash k a p fuel beyond id s.kex reply.host_key client_pubkey reply.pubkey
            shared_secret)
          _ s
          (λ exchange_hash e3.
            lift_else
              (verify_signature p.hash_compute p.rsa_verify beyond s.kex.pubkey_type reply.host_key
                reply.signature exchange_hash)
              _ s
              (λ _ e4. lift_else (check_server_identity id reply.host_key) _ s (λ _ e5.
                inr (record {
                  shared_secret = shared_secret;
                  client_pubkey = client_pubkey;
                  exchange_hash = exchange_hash;
                  computed = e1;
                  own = e2;
                  hashed = e3;
                  signed = e4;
                  approved = e5;
                }))))))

  -- The packet that came holds a reply that proves who the server is.
  pub record IsProven (dh : p.Dh) (kex : Kex) (came : Result Reader) : Type 0 where
    pub pack : Reader
    pub reply : Reply
    pub arrived : came ≡ ok pack
    pub is_reply : packet_type pack == msg_kexdh_reply ≡ true
    pub read : (read_reply_strings pack).0 ≡ ok reply
    pub proof : Proves dh kex reply

  by_reply_else :
      (dh : p.Dh) (t : Exchange k) (pack : Reader)
      → ((by_reply k a p fuel beyond id dh pack t).1 ≡ t) ⊎ IsProven dh t.kex (ok pack)
  unfolding by_reply
  by_reply_else dh t pack = elim (Bool-cases (packet_type pack == msg_kexdh_reply)) [
    | inr other ↦ rw other (inl refl)
    | inl good ↦ rw good (
        lift_else (read_reply_strings pack).0 (use_reply k a p fuel beyond id dh) t (λ reply e.
          elim (use_reply_else dh reply t) [
            | inl same ↦ inl same
            | inr proof ↦ inr (record {
              pack = pack;
              reply = reply;
              arrived = refl;
              is_reply = good;
              read = e;
              proof = proof;
            })
          ]))
  ]

  received_else :
      (dh : p.Dh) (r : Result Reader) (t : Exchange k)
      → ((proceed r t (by_reply k a p fuel beyond id dh)).1 ≡ t) ⊎ IsProven dh t.kex r
  received_else dh (ok pack) t = by_reply_else dh t pack
  received_else dh (fail e) t = inl refl

  -- Without an authentic server dh_kex_read_reply changes nothing beyond the receipt of a packet,
  -- however it fails, so that it then sends nothing, sets no key in either direction and keeps
  -- neither a secret nor a session id, unless the very packet that it has received is a reply whose
  -- key has signed the hash of this exchange and was approved by the client.
  pub read_reply_else :
      (dh : p.Dh) (s : Exchange k)
      → ((read_reply k a p fuel beyond id dh s).1 ≡ (receive k a p fuel s).1)
        ⊎ IsProven dh s.kex (receive k a p fuel s).0
  unfolding read_reply ◌>>=◌
  read_reply_else dh s = received_else dh (receive k a p fuel s).0 (receive k a p fuel s).1
