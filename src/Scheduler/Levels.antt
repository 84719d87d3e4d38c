-- ===== src/Scheduler/Levels.antt =====
-- `MessagePriority`, and arrays with a slot for each of its values.
use notifiapp_transport.Common.{◌≡◌, refl, ◌≢◌}

pub data MessagePriority : Type 0 where
  real_time normal stream bulk : MessagePriority

pub record Slots {ℓ} (A : Type ℓ) : Type ℓ where
  pub s0 : A
  pub s1 : A
  pub s2 : A
  pub s3 : A

module _ {ℓ} {A : Type ℓ} where
  abbrev pub get : Slots A → MessagePriority → A
  get s real_time = s.s0
  get s normal = s.s1
  get s stream = s.s2
  get s bulk = s.s3

  abbrev pub set : Slots A → MessagePriority → A → Slots A
  set s real_time a = record s { s0 = a }
  set s normal a = record s { s1 = a }
  set s stream a = record s { s2 = a }
  set s bulk a = record s { s3 = a }

  pub get-set_self : (s : Slots A) (p : MessagePriority) (a : A) → get (set s p a) p ≡ a
  get-set_self s real_time a = refl
  get-set_self s normal a = refl
  get-set_self s stream a = refl
  get-set_self s bulk a = refl

  pub get-set_ne :
      (s : Slots A) (p q : MessagePriority) (a : A) → p ≢ q → get (set s p a) q ≡ get s q
  get-set_ne s real_time real_time a h = absurd (h refl)
  get-set_ne s real_time normal a h = refl
  get-set_ne s real_time stream a h = refl
  get-set_ne s real_time bulk a h = refl
  get-set_ne s normal real_time a h = refl
  get-set_ne s normal normal a h = absurd (h refl)
  get-set_ne s normal stream a h = refl
  get-set_ne s normal bulk a h = refl
  get-set_ne s stream real_time a h = refl
  get-set_ne s stream normal a h = refl
  get-set_ne s stream stream a h = absurd (h refl)
  get-set_ne s stream bulk a h = refl
  get-set_ne s bulk real_time a h = refl
  get-set_ne s bulk normal a h = refl
  get-set_ne s bulk stream a h = refl
  get-set_ne s bulk bulk a h = absurd (h refl)
