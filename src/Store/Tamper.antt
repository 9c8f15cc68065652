-- ===== src/Store/Tamper.antt =====
-- The hash chain as evidence (store.py, `verify_event_chain`): a verified log is fixed by its last hash.
use Prim.Native.String.{count, ◌++◌ as append_text}
use text.Mathlib.TextLemmas.{append_inj}
use company_os.Prelude.{
  ◌≢◌, ◌⊎◌, inl, inr, Bool-cases, ℕ, suc, ◌≡◌, refl, sym, ap, ap₂, ◌∙◌, String, List, [], ◌∷◌,
  arith, eq_iff, ◌==◌, map, Bool, true,
}
use company_os.Result.{ok, err, Result, ◌>>◌, guard, >>=-eq-ok, Error}
use company_os.Db.{Env}
use company_os.Db.Rows.{Event, Session}
use company_os.Store.Entry.{last_hash}
use company_os.Store.Verify.{row_envelope, row_hash, verify_event, verify_events}

guard-ok :
    (b : Bool) (e : Error) (m : Result (Unit {0}))
    → (guard b e >> m) ≡ ok tt
    → (b ≡ true) × (m ≡ ok tt)
guard-ok b e m h = ground arith

from_ok : Result ℕ → ℕ
from_ok (ok n) = n
from_ok (err e) = 0

ok-injective : {m n : ℕ} → ◌≡◌ {A = Result ℕ} (ok m) (ok n) → m ≡ n
unfolding from_ok
ok-injective h = ap from_ok h

module _ (env : Env) where
  verify_event-inv :
      (ss : List Session) (p : String) (e : Event)
      → verify_event env ss p e ≡ ok tt
      → (row_hash env p e ≡ e.event_hash)
        × (env.sha256 (env.canonical_json e.payload) ≡ e.payload_digest)
  unfolding verify_event
  verify_event-inv ss p e h =
      let (a, h₁) = guard-ok _ _ _ h in
      let (b, h₂) = guard-ok _ _ _ h₁ in
      let (c, h₃) = guard-ok _ _ _ h₂ in ((eq_iff _ _).0 b, (eq_iff _ _).0 c)

  -- the last event of a verified log, and the log before it
  verify_events-inv :
      (ss : List Session) (e : Event) (es : List Event) (n : ℕ)
      → verify_events env ss (e ∷ es) ≡ ok n
      → (m : ℕ) × (verify_events env ss es ≡ ok m)
        × (n ≡ suc m)
        × (row_hash env (last_hash es) e ≡ e.event_hash)
        × (env.sha256 (env.canonical_json e.payload) ≡ e.payload_digest)
  unfolding verify_events
  verify_events-inv ss e es n h =
      let (m, older, rest) = >>=-eq-ok (verify_events env ss es) _ h in
      let (u, checked, last) = >>=-eq-ok (verify_event env ss (last_hash es) e) _ rest in
      let (hash, digest) = verify_event-inv ss (last_hash es) e checked in
      (m, older, sym (ok-injective last), hash, digest)

  not_empty :
      (ss ts : List Session) (f : Event) (fs : List Event) (n : ℕ)
      → verify_events env ss [] ≡ ok n
      → verify_events env ts (f ∷ fs) ≡ ok n
      → ⊥
  unfolding verify_events
  not_empty ss ts f fs n v w = cc (verify_events-inv ts f fs n w).2

  -- Two different texts with one hash.
  abbrev Collision : String → String → Type 0
  Collision s t = (s ≢ t) × (env.sha256 s ≡ env.sha256 t)

  -- the text whose hash is that of the newest event
  abbrev hashed : Event → List Event → String
  hashed e es = append_text (last_hash es) (env.canonical_json (row_envelope e))

  -- At some place in the two logs the hashed texts of the events there are a collision, or their
  -- encoded payloads are.
  unfoldable pub Clash : List Event → List Event → Type 0
  Clash [] fs = ⊥
  Clash (e ∷ es) [] = ⊥
  Clash (e ∷ es) (f ∷ fs) =
      Collision (hashed e es) (hashed f fs)
      ⊎ (Collision (env.canonical_json e.payload) (env.canonical_json f.payload) ⊎ Clash es fs)

  hash_decides : (s t : String) → env.sha256 s ≡ env.sha256 t → (s ≡ t) ⊎ Collision s t
  hash_decides s t h = elim (Bool-cases (s == t)) [
    | inl same ↦ inl ((eq_iff s t).0 same)
    | inr other ↦ inr ((λ same. cc (other, (eq_iff s t).1 same)), h)
  ]

  -- the encoded envelope and the encoded payload of an event
  abbrev pub recorded : Event → String × String
  recorded e = (env.canonical_json (row_envelope e), env.canonical_json e.payload)

  -- What the argument takes of the libraries: a hash has one length, and the text of an envelope
  -- determines the digest that stands in it.
  module _ (hash_length : (s t : String) → count (env.sha256 s) ≡ count (env.sha256 t))
      (digest_in_text : (e f : Event)
        → env.canonical_json (row_envelope e) ≡ env.canonical_json (row_envelope f)
        → e.payload_digest ≡ f.payload_digest) where
    same_link :
        (p q : String) (e f : Event)
        → count p ≡ count q
        → row_hash env p e ≡ row_hash env q f
        → ((p ≡ q) × (env.canonical_json (row_envelope e) ≡ env.canonical_json (row_envelope f)))
          ⊎ Collision
              (append_text p (env.canonical_json (row_envelope e)))
              (append_text q (env.canonical_json (row_envelope f)))
    unfolding row_hash
    same_link p q e f lengths h = elim (hash_decides _ _ h) [
      | inl same ↦ inl (append_inj same lengths)
      | inr collision ↦ inr collision
    ]

    same_payload :
        (e f : Event)
        → env.sha256 (env.canonical_json e.payload) ≡ e.payload_digest
        → env.sha256 (env.canonical_json f.payload) ≡ f.payload_digest
        → env.canonical_json (row_envelope e) ≡ env.canonical_json (row_envelope f)
        → (env.canonical_json e.payload ≡ env.canonical_json f.payload)
          ⊎ Collision (env.canonical_json e.payload) (env.canonical_json f.payload)
    same_payload e f digest digest' same =
        hash_decides _ _ (digest ∙ digest_in_text e f same ∙ sym digest')

    last_hash-length :
        (ss ts : List Session) (es fs : List Event) (n : ℕ)
        → verify_events env ss es ≡ ok n
        → verify_events env ts fs ≡ ok n
        → count (last_hash es) ≡ count (last_hash fs)
    unfolding verify_events row_hash
    last_hash-length ss ts [] [] n v w = refl
    last_hash-length ss ts [] (f ∷ fs) n v w = absurd (not_empty ss ts f fs n v w)
    last_hash-length ss ts (e ∷ es) [] n v w = absurd (not_empty ts ss e es n w v)
    last_hash-length ss ts (e ∷ es) (f ∷ fs) n v w =
        ap count (sym (verify_events-inv ss e es n v).3)
        ∙ hash_length _ _
        ∙ ap count (verify_events-inv ts f fs n w).3

    -- Let all hashes have one length, and let the text of an envelope determine the payload digest
    -- in it. Then two logs of the same length that both verify and end in the same event hash have
    -- recorded the same envelopes and the same payloads throughout, up to their encoding, or else two
    -- different texts with one hash stand at one place in the logs: the hashed texts of the two events
    -- there, or their encoded payloads.
    pub last_hash_fixes_history :
        (ss ts : List Session) (es fs : List Event) (n : ℕ)
        → verify_events env ss es ≡ ok n
        → verify_events env ts fs ≡ ok n
        → last_hash es ≡ last_hash fs
        → (map recorded es ≡ map recorded fs) ⊎ Clash es fs
    unfolding Clash
    last_hash_fixes_history ss ts [] [] n v w h = inl refl
    last_hash_fixes_history ss ts [] (f ∷ fs) n v w h = absurd (not_empty ss ts f fs n v w)
    last_hash_fixes_history ss ts (e ∷ es) [] n v w h = absurd (not_empty ts ss e es n w v)
    last_hash_fixes_history ss ts (e ∷ es) (f ∷ fs) n v w h =
        let (m, older, n_is, hash, digest) = verify_events-inv ss e es n v in
        let (m', older', n_is', hash', digest') = verify_events-inv ts f fs n w in
        let w_m : verify_events env ts fs ≡ ok m = older' ∙ ap ok (omega (arith, n_is, n_is')) in
        elim (same_link (last_hash es) (last_hash fs) e f (last_hash-length ss ts es fs m older w_m)
          (hash ∙ h ∙ sym hash')) [
            | inr collision ↦ inr (inl collision)
            | inl (same_last, text) ↦ elim (same_payload e f digest digest' text) [
              | inr collision ↦ inr (inr (inl collision))
              | inl payload ↦ elim (last_hash_fixes_history ss ts es fs m older w_m same_last) [
                | inr clash ↦ inr (inr (inr clash))
                | inl rest ↦ inl (ap₂ ◌∷◌ (ap₂ (λ a b. (a, b)) text payload) rest)
              ]
            ]
          ]
