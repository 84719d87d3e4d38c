-- ===== src/Scheduler/Round.antt =====
-- One round of src/scheduler.rs under load: how the weights share out the calls of `pop`.
use Prim.Native.Nat.add
use notifiapp_transport.Common.{
  ℕ, suc, zero, ◌+◌, ◌≡◌, refl, arith, List, [], ◌∷◌, ◌++◌, some, length, append_assoc,
}
use notifiapp_transport.Scheduler.Levels.{Slots}
use notifiapp_transport.Scheduler.{WfqScheduler, first_pass, second_pass, spend, pop, wfq_weights}
use notifiapp_transport.Scheduler.History.{option_list}

abbrev pub four {ℓ} : {A : Type ℓ} → A → A → A → A → Slots A
four a b c d = record { s0 = a; s1 = b; s2 = c; s3 = d }

module _ {T : Type 0} where
  -- `n` calls of `pop`.
  unfoldable pub pop_many : ℕ → WfqScheduler T → List T × WfqScheduler T
  pop_many zero s = ([], s)
  pop_many (suc n) s =
      let (out, last) = pop_many n (pop s).1 in (option_list (pop s).0 ++ out, last)

  abbrev pub state : Slots (List T) → Slots ℕ → WfqScheduler T
  state qs cs = record { queues = qs; credits = cs }

  -- Runs follow one another.
  pop_many-add :
      (m n : ℕ) (s : WfqScheduler T)
      → pop_many (m + n) s
        ≡ ((pop_many m s).0 ++ (pop_many n (pop_many m s).1).0, (pop_many n (pop_many m s).1).1)
  unfolding pop_many
  pop_many-add zero n s = rw add.zero
  pop_many-add (suc m) n s = rw (add.suc, pop_many-add m n (pop s).1, append_assoc)

  followed_by :
      (m n : ℕ) (s : WfqScheduler T) {s' s'' : WfqScheduler T} {xs ys : List T}
      → pop_many m s ≡ (xs, s')
      → pop_many n s' ≡ (ys, s'')
      → pop_many (m + n) s ≡ (xs ++ ys, s'')
  followed_by m n s e f = rw (pop_many-add m n s, e, f)

  real_time_pop :
      (x : T) (xs b c d : List T) (n c1 c2 c3 : ℕ)
      → pop (state (four (x ∷ xs) b c d) (four (suc n) c1 c2 c3))
        ≡ (some x, state (four xs b c d) (four n c1 c2 c3))
  unfolding pop first_pass second_pass spend
  real_time_pop x xs b c d n c1 c2 c3 = ground arith

  real_time_stage :
      (xs r b c d : List T) (c1 c2 c3 : ℕ)
      → pop_many (length xs) (state (four (xs ++ r) b c d) (four (length xs) c1 c2 c3))
        ≡ (xs, state (four r b c d) (four 0 c1 c2 c3))
  unfolding pop_many
  real_time_stage [] r b c d c1 c2 c3 = refl
  real_time_stage (x ∷ xs) r b c d c1 c2 c3 =
      rw (real_time_pop x (xs ++ r) b c d (length xs) c1 c2 c3, real_time_stage xs r b c d c1 c2 c3)

  normal_pop :
      (x : T) (xs a c d : List T) (n c2 c3 : ℕ)
      → pop (state (four a (x ∷ xs) c d) (four 0 (suc n) c2 c3))
        ≡ (some x, state (four a xs c d) (four 0 n c2 c3))
  unfolding pop first_pass second_pass spend
  normal_pop x xs a c d n c2 c3 = ground arith

  normal_stage :
      (xs r a c d : List T) (c2 c3 : ℕ)
      → pop_many (length xs) (state (four a (xs ++ r) c d) (four 0 (length xs) c2 c3))
        ≡ (xs, state (four a r c d) (four 0 0 c2 c3))
  unfolding pop_many
  normal_stage [] r a c d c2 c3 = refl
  normal_stage (x ∷ xs) r a c d c2 c3 =
      rw (normal_pop x (xs ++ r) a c d (length xs) c2 c3, normal_stage xs r a c d c2 c3)

  stream_pop :
      (x : T) (xs a b d : List T) (n c3 : ℕ)
      → pop (state (four a b (x ∷ xs) d) (four 0 0 (suc n) c3))
        ≡ (some x, state (four a b xs d) (four 0 0 n c3))
  unfolding pop first_pass second_pass spend
  stream_pop x xs a b d n c3 = ground arith

  stream_stage :
      (xs r a b d : List T) (c3 : ℕ)
      → pop_many (length xs) (state (four a b (xs ++ r) d) (four 0 0 (length xs) c3))
        ≡ (xs, state (four a b r d) (four 0 0 0 c3))
  unfolding pop_many
  stream_stage [] r a b d c3 = refl
  stream_stage (x ∷ xs) r a b d c3 =
      rw (stream_pop x (xs ++ r) a b d (length xs) c3, stream_stage xs r a b d c3)

  bulk_pop :
      (x : T) (xs a b c : List T) (n : ℕ)
      → pop (state (four a b c (x ∷ xs)) (four 0 0 0 (suc n)))
        ≡ (some x, state (four a b c xs) (four 0 0 0 n))
  unfolding pop first_pass second_pass spend
  bulk_pop x xs a b c n = ground arith

  bulk_stage :
      (xs r a b c : List T)
      → pop_many (length xs) (state (four a b c (xs ++ r)) (four 0 0 0 (length xs)))
        ≡ (xs, state (four a b c r) (four 0 0 0 0))
  unfolding pop_many
  bulk_stage [] r a b c = refl
  bulk_stage (x ∷ xs) r a b c = rw (bulk_pop x (xs ++ r) a b c (length xs), bulk_stage xs r a b c)

  -- On a loaded scheduler with full credits, 15 pops give 8 real-time, 4 normal, 2 stream and 1
  -- bulk items in order and use up all credits.
  pub pop_many-weights :
      (rt n st bk r0 r1 r2 r3 : List T)
      → length rt ≡ 8
      → length n ≡ 4
      → length st ≡ 2
      → length bk ≡ 1
      → pop_many 15 (state (four (rt ++ r0) (n ++ r1) (st ++ r2) (bk ++ r3)) wfq_weights)
        ≡ (rt ++ (n ++ (st ++ bk)), state (four r0 r1 r2 r3) (four 0 0 0 0))
  pop_many-weights rt n st bk r0 r1 r2 r3 e0 e1 e2 e3 =
      let s0 : pop_many 8 (state (four (rt ++ r0) (n ++ r1) (st ++ r2) (bk ++ r3)) wfq_weights)
          ≡ (rt, state (four r0 (n ++ r1) (st ++ r2) (bk ++ r3)) (four 0 4 2 1)) =
        rw e0 at (real_time_stage rt r0 (n ++ r1) (st ++ r2) (bk ++ r3) 4 2 1) in
      let s1 : pop_many 4 (state (four r0 (n ++ r1) (st ++ r2) (bk ++ r3)) (four 0 4 2 1))
          ≡ (n, state (four r0 r1 (st ++ r2) (bk ++ r3)) (four 0 0 2 1)) =
        rw e1 at (normal_stage n r1 r0 (st ++ r2) (bk ++ r3) 2 1) in
      let s2 : pop_many 2 (state (four r0 r1 (st ++ r2) (bk ++ r3)) (four 0 0 2 1))
          ≡ (st, state (four r0 r1 r2 (bk ++ r3)) (four 0 0 0 1)) =
        rw e2 at (stream_stage st r2 r0 r1 (bk ++ r3) 1) in
      let s3 : pop_many 1 (state (four r0 r1 r2 (bk ++ r3)) (four 0 0 0 1))
          ≡ (bk, state (four r0 r1 r2 r3) (four 0 0 0 0)) =
        rw e3 at (bulk_stage bk r3 r0 r1 r2) in
      followed_by 8 7 _ s0 (followed_by 4 3 _ s1 (followed_by 2 1 _ s2 s3))
