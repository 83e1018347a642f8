-- ===== src/Connection/World/Request.antt =====
-- What a call of `request_async` that returns has done.
use common.Base.{
  ℕ, ◌+◌, ◌%◌, ◌^◌, ◌≡◌, refl, sym, List, [], ◌∷◌, none, Bool, true, false, not, ◌||◌, ◌⊎◌, inl,
  inr, arith, Bool-cases, ok, bind_ok, ensure_ok, ok_injective, subst,
}
use common.Base.Assoc.{find, is_absent, emplace}
use common.Utils.Buffer.{Buffer}
use common.Utils.View.{of_buffer}
use common.Results.{RequestResult}
use common.Message.Types.{TransferMsgType}
use common.Message.Decode.{
  is_request_buffer_valid, get_transfer_msg_type, get_msg_number_req, is_type,
}
use common.Timer.Multiple.{MultipleTimer, Wait}
use common.Timer.Multiple
use common.Connection.Handlers.{
  Impl, RequestFuture, ready, pending, Effect, send_request, is_started, add_request_to_map,
  request_async,
}

is_absent→find {ℓ} :
    {V : Type ℓ} (k : ℕ) (m : List (ℕ × V)) → is_absent k m ≡ true → find k m ≡ none
unfolding is_absent
is_absent→find k m h = ground arith

-- `c'` is `c` with a new request `number` for the promise `p`, and a timer for it.
pub record Added (c c' : Impl) (number p : ℕ) : Type 0 where
  pub id : ℕ
  pub is_next : id ≡ c.m_multiple_timer.m_next_id
  pub next_id : c'.m_multiple_timer.m_next_id ≡ (c.m_multiple_timer.m_next_id + 1) % 2 ^ 64
  pub fresh_number : find number c.m_request_map ≡ none
  pub fresh_id : find id c.m_multiple_timer.timers_map ≡ none
  pub map :
      c'.m_request_map
      ≡ emplace number
          (record { promise = p; timer_id = id; is_req_sent = false; fail_req_result = none })
          c.m_request_map
  pub timers :
      c'.m_multiple_timer.timers_map
      ≡ emplace id (record { cancelled = false; callback = number }) c.m_multiple_timer.timers_map

start_ok :
    (number : ℕ) (t : MultipleTimer ℕ) (out : ℕ × MultipleTimer ℕ)
    → Multiple.start number t ≡ ok out
    → (out.0 ≡ t.m_next_id)
      × (out.1.m_next_id ≡ (t.m_next_id + 1) % 2 ^ 64)
      × (find out.0 t.timers_map ≡ none)
      × (out.1.timers_map
          ≡ emplace out.0 (record { cancelled = false; callback = number }) t.timers_map)
unfolding Multiple.start
start_ok number t out h =
    let (absent, e) = ensure_ok (is_absent t.m_next_id t.timers_map) _ h in
    subst
      (λ o.
        (o.0 ≡ t.m_next_id)
        × (o.1.m_next_id ≡ (t.m_next_id + 1) % 2 ^ 64)
        × (find o.0 t.timers_map ≡ none)
        × (o.1.timers_map
            ≡ emplace o.0 (record { cancelled = false; callback = number }) t.timers_map))
      (ok_injective e) (refl, refl, is_absent→find t.m_next_id t.timers_map absent, refl)

add_request_ok :
    (number p : ℕ) (c c' : Impl) → add_request_to_map number p c ≡ ok c' → Added c c' number p
unfolding add_request_to_map
add_request_ok number p c c' h =
    let (absent, e) = ensure_ok (is_absent number c.m_request_map) _ h in
    let ((id, timers), began, f) = bind_ok (Multiple.start number c.m_multiple_timer) _ e in
    let (same, after, unused, placed) = start_ok number c.m_multiple_timer (id, timers) began in
    subst (λ o. Added c o number p) (ok_injective f)
      (record {
        id = id;
        is_next = same;
        next_id = after;
        fresh_number = is_absent→find number c.m_request_map absent;
        fresh_id = unused;
        map = refl;
        timers = placed;
      })

-- A call that returns has refused the request, and changed nothing, or has added it and asked the
-- transport to send it.
pub request_async_ok :
    (running : Bool) (p : ℕ) (message : Buffer) (c : Impl)
    (out : Impl × List Effect × RequestFuture)
    → request_async running p message c ≡ ok out
    → (out ≡ (c, [], ready RequestResult.failed))
      ⊎ ((number : ℕ) × (get_msg_number_req (of_buffer message) ≡ ok number)
          × Added c out.0 number p
          × (out.1 ≡ send_request number message ∷ [])
          × (out.2 ≡ pending p))
unfolding request_async
request_async_ok running p message c out h =
    elim (Bool-cases (not (is_started c.m_state) || not running)) [
      | inl e ↦ inl (sym (ok_injective (rw e at h)))
      | inr e ↦
          let (valid, _, h1) =
            bind_ok (is_request_buffer_valid (of_buffer message)) _ (rw e at h) in
          let (_, h2) = ensure_ok valid _ h1 in
          let (type, _, h3) = bind_ok (get_transfer_msg_type (of_buffer message)) _ h2 in
          let (_, h4) = ensure_ok (is_type type TransferMsgType.req) _ h3 in
          let (number, got, h5) = bind_ok (get_msg_number_req (of_buffer message)) _ h4 in
          let (c', added, h6) = bind_ok (add_request_to_map number p c) _ h5 in
          inr (
            subst
              (λ o.
                (n : ℕ) × (get_msg_number_req (of_buffer message) ≡ ok n)
                × Added c o.0 n p
                × (o.1 ≡ send_request n message ∷ [])
                × (o.2 ≡ pending p))
              (ok_injective h6) (number, got, add_request_ok number p c c' added, refl, refl))
    ]
