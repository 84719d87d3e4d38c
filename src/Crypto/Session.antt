-- ===== src/Crypto/Session.antt =====
-- The life of a session of src/crypto.rs: handshake, transport, and the state after an error.
use notifiapp_transport.Common.{
  ℕ, ◌≡◌, refl, arith, List, [], ◌∷◌, All, Option, none, some, Result, ok, err, true, false,
}
use notifiapp_transport.Error.{CryptoError, invalid_state}
use notifiapp_transport.Crypto.{
  Snow, NoiseSession, NoiseState, handshake, transport, read_message, write_message, is_finished,
  poisoned,
}

-- The two calls that the rest of the crate makes.
pub data Op : Type 0 where
  read write : List ℕ → ℕ → Op

module _ (snow : Snow) where
  unfoldable pub perform : Op → NoiseSession snow → Result (List ℕ) CryptoError × NoiseSession snow
  perform (read packet room) s = read_message snow packet room s
  perform (write payload room) s = write_message snow payload room s

  pub perform_all : List Op → NoiseSession snow → List (Result (List ℕ) CryptoError)
  perform_all [] s = []
  perform_all (o ∷ os) s = (perform o s).0 ∷ perform_all os (perform o s).1

  perform-poisoned : (o : Op) → perform o (poisoned snow) ≡ (err invalid_state, poisoned snow)
  unfolding perform read_message write_message
  perform-poisoned (read packet room) = refl
  perform-poisoned (write payload room) = refl

  perform_all-poisoned :
      (os : List Op) → All (λ r. r ≡ err invalid_state) (perform_all os (poisoned snow))
  unfolding perform_all
  perform_all-poisoned [] = tt
  perform_all-poisoned (o ∷ os) = rw (perform-poisoned o) (refl, perform_all-poisoned os)

  perform-err :
      (o : Op) (n : Option (NoiseState snow)) (e : CryptoError) (s' : NoiseSession snow)
      → perform o (record { state = n }) ≡ (err e, s')
      → s' ≡ poisoned snow
  unfolding perform read_message write_message
  perform-err (read packet room) none e s' h = cc
  perform-err (read packet room) (some (handshake x)) e s' h = ground arith
  perform-err (read packet room) (some (transport x)) e s' h = ground arith
  perform-err (write packet room) none e s' h = cc
  perform-err (write packet room) (some (handshake x)) e s' h = ground arith
  perform-err (write packet room) (some (transport x)) e s' h = ground arith

  -- After a failed call a Noise session is not finished, and every further call fails with
  -- InvalidState.
  pub perform_all-after_error :
      (o : Op) (os : List Op) (e : CryptoError) (s s' : NoiseSession snow)
      → perform o s ≡ (err e, s')
      → (is_finished snow s' ≡ false) × All (λ r. r ≡ err invalid_state) (perform_all os s')
  unfolding is_finished
  perform_all-after_error o os e s s' h =
      rw (perform-err o s.state e s' h) (refl, perform_all-poisoned os)

  -- A successful call keeps a finished Noise session finished.
  perform-is_finished :
      (o : Op) (s s' : NoiseSession snow) (bytes : List ℕ)
      → is_finished snow s ≡ true
      → perform o s ≡ (ok bytes, s')
      → is_finished snow s' ≡ true
  unfolding is_finished perform read_message write_message
  perform-is_finished (read packet room) s s' bytes f h = ground arith
  perform-is_finished (write packet room) s s' bytes f h = ground arith
