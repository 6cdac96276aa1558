-- ===== src/System/Kept/Registrations.antt =====
-- The registrations set the callback of a plane before they start its thread.
use manet_testbed.Base.{
  Option, none, some, ◌∷◌, u32_max, if◌then◌else◌, inl, inr, is_zero, Bool-cases,
}
use manet_testbed.Api.{
  State, CallbackFunction, in_control, in_data, out, for, pthread_create, and_then, pure, ◌>>◌, Os,
  call, mutex_lock, mutex_unlock,
}
use manet_testbed.Api.Laws.{Leaves}
use manet_testbed.Queue.Register.{
  start_thread, register_incoming_callback, register_outgoing_callback, register_forward_callback,
}
use manet_testbed.Queue.Register.Outcomes.{
  Registration, incoming, outgoing, forward, register, outgoing_filtered, forward_filtered,
  incoming_filtered,
}
use manet_testbed.System.Kept.{Kept, bind-Kept, callback, lock-Kept}

module _ (os : Os) where
  outgoing-Kept :
      (cb : Option CallbackFunction) (s : State)
      → Leaves (Kept s) (register_outgoing_callback os cb s)
  unfolding register_outgoing_callback start_thread call mutex_unlock
  outgoing-Kept none s = bind-Kept s (mutex_lock s) _ (lock-Kept s) λ _ t k. (k.0, k.1)
  outgoing-Kept (some f) s = bind-Kept s (mutex_lock s) _ (lock-Kept s) λ _ t k.
      elim (Bool-cases (is_zero (os.result (pthread_create out ∷ outgoing_filtered t)))) [
        | inl begun ↦ rw begun (λ g. ((k.0 g).0, (k.0 g).1, (λ started. callback), (k.0 g).3), k.1)
        | inr refused ↦
            rw refused (λ g. ((k.0 g).0, (k.0 g).1, (λ started. callback), (k.0 g).3), k.1)
      ]

  forward-Kept :
      (cb : Option CallbackFunction) (s : State)
      → Leaves (Kept s) (register_forward_callback os cb s)
  unfolding register_forward_callback start_thread call mutex_unlock
  forward-Kept none s = bind-Kept s (mutex_lock s) _ (lock-Kept s) λ _ t k. (k.0, k.1)
  forward-Kept (some f) s = bind-Kept s (mutex_lock s) _ (lock-Kept s) λ _ t k.
      elim (Bool-cases (is_zero (os.result (pthread_create for ∷ forward_filtered t)))) [
        | inl begun ↦ rw begun (λ g. ((k.0 g).0, (k.0 g).1, (k.0 g).2, (λ started. callback)), k.1)
        | inr refused ↦
            rw refused (λ g. ((k.0 g).0, (k.0 g).1, (k.0 g).2, (λ started. callback)), k.1)
      ]

  -- The second half of `RegisterIncomingCallback`, after the calls `log`.
  start_data-Kept :
      (f : CallbackFunction) (s t : State)
      → Kept s t
      → Leaves (Kept s) (
          and_then
            (start_thread os in_data
              (λ t' u. record u { in_thread_data = t' })
              (record t { incoming_data = some f }))
            (λ failed. if failed then pure u32_max else do mutex_unlock; pure 0))
  unfolding start_thread call mutex_unlock
  start_data-Kept f s t k =
      elim (Bool-cases (is_zero (os.result (pthread_create in_data ∷ t.log)))) [
        | inl begun ↦ rw begun (λ g. ((k.0 g).0, (λ started. callback), (k.0 g).2, (k.0 g).3), k.1)
        | inr refused ↦
            rw refused (λ g. ((k.0 g).0, (λ started. callback), (k.0 g).2, (k.0 g).3), k.1)
      ]

  incoming-Kept :
      (control_cb data_cb : Option CallbackFunction) (s : State)
      → Leaves (Kept s) (register_incoming_callback os control_cb data_cb s)
  unfolding register_incoming_callback start_thread call mutex_unlock
  incoming-Kept none none s = bind-Kept s (mutex_lock s) _ (lock-Kept s) λ _ t k. (k.0, k.1)
  incoming-Kept none (some d) s =
      bind-Kept s (mutex_lock s) _ (lock-Kept s)
        λ _ t k. start_data-Kept d s (record t { log = incoming_filtered t }) (k.0, k.1)
  incoming-Kept (some c) none s = bind-Kept s (mutex_lock s) _ (lock-Kept s) λ _ t k.
      elim (Bool-cases (is_zero (os.result (pthread_create in_control ∷ incoming_filtered t)))) [
        | inl begun ↦ rw begun (λ g. ((λ started. callback), (k.0 g).1, (k.0 g).2, (k.0 g).3), k.1)
        | inr refused ↦
            rw refused (λ g. ((λ started. callback), (k.0 g).1, (k.0 g).2, (k.0 g).3), k.1)
      ]
  incoming-Kept (some c) (some d) s = bind-Kept s (mutex_lock s) _ (lock-Kept s) λ _ t k.
      elim (Bool-cases (is_zero (os.result (pthread_create in_control ∷ incoming_filtered t)))) [
        | inl begun ↦ rw begun (
            start_data-Kept d s
              (record t {
                incoming_control = some c;
                in_thread_control = os.thread_id (pthread_create in_control ∷ incoming_filtered t);
                log = pthread_create in_control ∷ incoming_filtered t;
              })
              (λ g. ((λ started. callback), (k.0 g).1, (k.0 g).2, (k.0 g).3), k.1))
        | inr refused ↦
            rw refused (λ g. ((λ started. callback), (k.0 g).1, (k.0 g).2, (k.0 g).3), k.1)
      ]

  pub register-Kept : (g : Registration) (s : State) → Leaves (Kept s) (register os g s)
  unfolding register
  register-Kept (incoming c d) s = incoming-Kept c d s
  register-Kept (outgoing cb) s = outgoing-Kept cb s
  register-Kept (forward cb) s = forward-Kept cb s
