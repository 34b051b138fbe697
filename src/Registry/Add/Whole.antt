-- ===== src/Registry/Add/Whole.antt =====
-- `oddjob_dbus_listeners_add_method` as a whole: what the tree offers afterwards.
use oddjob_gpupdate.Prelude.{
  ℕ, ◌+◌, ◌<◌, ◌≡◌, refl, ap, ◌∙◌, inl, inr, arith, Bool, true, false, ◌&&◌, List, [], ◌∷◌, ◌++◌,
  Option, none, some, Bytes, str_eq, if◌then◌else◌, Option-cases, length, get_elem?-middle,
  splice-middle, length-append, Returns, Run, ok, store, store_within, ℤ,
}
use oddjob_gpupdate.Util.Memory.{Ample}
use oddjob_gpupdate.Util.Resize.{resize_array, resize_array-grow}
use oddjob_gpupdate.Registry.Table.{find, put}
use oddjob_gpupdate.Registry.Table.Found.{find-Stops, find-none, find-name}
use oddjob_gpupdate.Registry.Table.Below.{find-All, put-All, through-put, found_or}
use oddjob_gpupdate.Registry.Table.Laws.{find-nil, put-IsDistinct}
use oddjob_gpupdate.Registry.Bus.{Bus, Effect, service_connect}
use oddjob_gpupdate.Registry.Types.{
  Service, Context, Reply, blank_service, service_name, object_path, sizeof_service,
}
use oddjob_gpupdate.Registry.Add.{service_slot, add_method}
use oddjob_gpupdate.Registry.Add.Laws.{
  new_method, added_service, add_to_service_lem, in_service-added,
}
use oddjob_gpupdate.Registry.Add.Shape.{added_service-Tree, DistinctService}
use oddjob_gpupdate.Registry.Lookup.{
  IsRoomy, RoomyService, IsTree, TreeService, limit, lookup, in_service,
}

abbrev pub connected : Bytes → ℕ → Service
connected s c = record (blank_service s) { conn = some c }

module _ (fits : ℕ → Bool) (ample : Ample fits) (n_arguments : ℤ) (handler : Option ℕ)
    (user_data : ℕ) (ctx : Context) (s p i m : Bytes) where
  -- The service `srv` with the method added, in its place.
  abbrev pub with_service : Service → Context
  with_service srv = record ctx {
    services =
        put service_name s (added_service fits ample n_arguments handler user_data p i m srv)
          ctx.services;
  }

module _ (fits : ℕ → Bool) (ample : Ample fits) (n_arguments : ℤ) (handler : Option ℕ)
    (user_data : ℕ) (ctx : Context) (s p i m : Bytes) (bus : Bus) where
  abbrev pub call : Run Reply
  call = add_method fits ctx s p i m n_arguments handler user_data bus

  pub add_method-known :
      (srv : Service)
      → RoomyService srv
      → find service_name s ctx.services ≡ some srv
      → call
        ≡ ok (record {
          returned = true;
          ctx = with_service fits ample n_arguments handler user_data ctx s p i m srv;
          log = [];
        })
  unfolding add_method service_slot
  add_method-known srv h e =
      let st = find-Stops service_name s ctx.services e in
      rw (st.index, service_slot)
        (rw (
          st.elem,
          add_to_service_lem fits ample n_arguments handler user_data p i m srv h,
          st.stores (added_service fits ample n_arguments handler user_data p i m srv),
        ))

  module _ (log : List Effect) (h : length ctx.services < limit)
      (e : find service_name s ctx.services ≡ none) where
    -- The array with room for the new service.
    abbrev grown : List Service
    grown = ctx.services ++ blank_service s ∷ []

    pub resized :
        resize_array fits
          (blank_service s)
          ctx.services
          sizeof_service
          (length ctx.services)
          (length ctx.services + 1)
        ≡ ok grown
    resized =
        resize_array-grow fits (blank_service s) ample ctx.services sizeof_service (omega arith)
          (omega arith) (omega arith)

    pub add_method-unconnected :
        service_connect ctx.reconnect_timeout s bus ≡ ok (none, log)
        → call ≡ ok (record { returned = false; ctx = ctx; log = log })
    unfolding add_method service_slot
    add_method-unconnected k =
        rw ((find-none service_name s ctx.services e).0, service_slot) (rw (resized, k))

    stored :
        (x y : Service)
        → store (ctx.services ++ x ∷ []) (length ctx.services) (y ∷ [])
          ≡ ok (ctx.services ++ y ∷ [])
    stored x y =
        store_within (ctx.services ++ x ∷ []) (length ctx.services) (y ∷ [])
          (omega (arith, length-append ctx.services (x ∷ [])))
        ∙ ap ok (splice-middle ctx.services [] x y)

    pub add_method-connected :
        (c : ℕ)
        → service_connect ctx.reconnect_timeout s bus ≡ ok (some c, log)
        → call
          ≡ ok (record {
            returned = true;
            ctx = with_service fits ample n_arguments handler user_data ctx s p i m (connected s c);
            log = log;
          })
    unfolding add_method service_slot
    add_method-connected c k =
        let new = added_service fits ample n_arguments handler user_data p i m (connected s c) in
        rw ((find-none service_name s ctx.services e).0, service_slot)
          (rw (resized, k)
            (rw (
              stored (blank_service s) (connected s c),
              get_elem?-middle ctx.services [] (connected s c),
              add_to_service_lem fits ample n_arguments handler user_data p i m (connected s c)
                  (omega arith, tt),
              stored (connected s c) new,
              (find-none service_name s ctx.services e).1 new,
            )))

-- What the call leaves: `connects` is what `service_connect` answers, if it is asked.
pub record Added (n_arguments : ℤ) (handler : Option ℕ) (user_data : ℕ) (ctx : Context)
    (s p i m : Bytes) (connects : Option ℕ) (r : Reply) : Type 0 where
  pub lookups :
      r.returned ≡ true
      → (t q j n : Bytes)
      → lookup r.ctx t q j n ≡ (
          if str_eq t s && (str_eq q p && (str_eq j i && str_eq n m))
          then some (record {
            method = m;
            n_arguments = n_arguments;
            handler = handler;
            user_data = user_data;
          })
          else lookup ctx t q j n)
  pub refuses :
      r.returned ≡ false
      → (r.ctx ≡ ctx) × (connects ≡ none) × (find service_name s ctx.services ≡ none)
  pub tree : IsTree ctx → IsTree r.ctx

module _ (fits : ℕ → Bool) (ample : Ample fits) (n_arguments : ℤ) (handler : Option ℕ)
    (user_data : ℕ) (ctx : Context) (s p i m : Bytes) where
  pub with_service-Added :
      (srv : Service) (connects : Option ℕ) (log : List Effect)
      → srv.name ≡ s
      → (IsTree ctx → DistinctService srv)
      → ((q j n : Bytes)
          → in_service q j n srv
            ≡ in_service q j n (found_or service_name (blank_service s) s ctx.services))
      → Added n_arguments handler user_data ctx s p i m connects (record {
        returned = true;
        ctx = with_service fits ample n_arguments handler user_data ctx s p i m srv;
        log = log;
      })
  with_service-Added srv connects log e d same = record {
    lookups = λ _ t q j n.
        through-put service_name (in_service q j n) (blank_service s)
          (added_service fits ample n_arguments handler user_data p i m srv) s t ctx.services
          (str_eq q p && (str_eq j i && str_eq n m))
          (new_method fits ample n_arguments handler user_data m) e
          (rw (find-nil object_path q, in_service))
          (in_service-added fits ample n_arguments handler user_data p i m q j n srv
            ∙ ap
                (λ z.
                  if str_eq q p && (str_eq j i && str_eq n m)
                  then some (new_method fits ample n_arguments handler user_data m)
                  else z)
                (same q j n));
    refuses = λ f. cc f;
    tree = λ g. (
      put-IsDistinct service_name s _ ctx.services e g.0,
      put-All service_name TreeService s _ ctx.services
          (added_service-Tree fits ample n_arguments handler user_data p i m srv (d g)) g.1,
    );
  }

  -- With memory for every request, arrays that are not full and a connection attempt that ends,
  -- oddjob_dbus_listeners_add_method returns: TRUE and the four names lead to the given method
  -- while any other four lead to what they led to before, or FALSE for an unknown service that
  -- could not be connected, and nothing has changed; a well-formed tree stays one.
  pub add_method-Added :
      (bus : Bus) (connects : Option ℕ) (log : List Effect)
      → IsRoomy ctx
      → service_connect ctx.reconnect_timeout s bus ≡ ok (connects, log)
      → Returns
          (Added n_arguments handler user_data ctx s p i m connects)
          (add_method fits ctx s p i m n_arguments handler user_data bus)
  add_method-Added bus connects log h k = elim (Option-cases (find service_name s ctx.services)) [
    | inr (srv, e) ↦
        rw
          (add_method-known fits ample n_arguments handler user_data ctx s p i m bus srv
            (find-All service_name RoomyService s ctx.services h.1 e) e)
          (with_service-Added srv connects [] (find-name service_name s ctx.services e)
            (λ g. let t = find-All service_name TreeService s ctx.services g.1 e in (t.0, t.2))
            (λ q j n. rw (e, found_or)))
    | inl e ↦ new_service connects k e
  ]
    where
      new_service :
          (conn : Option ℕ)
          → service_connect ctx.reconnect_timeout s bus ≡ ok (conn, log)
          → find service_name s ctx.services ≡ none
          → Returns
              (Added n_arguments handler user_data ctx s p i m conn)
              (add_method fits ctx s p i m n_arguments handler user_data bus)
      new_service none k e =
          rw
            (add_method-unconnected fits ample n_arguments handler user_data ctx s p i m bus log h.0
              e k)
            (record { lookups = λ f. cc f; refuses = λ _. (refl, refl, e); tree = λ g. g })
      new_service (some c) k e =
          rw
            (add_method-connected fits ample n_arguments handler user_data ctx s p i m bus log h.0 e
              c k)
            (with_service-Added (connected s c) (some c) log refl (λ g. (tt, tt))
              (λ q j n. rw (e, found_or)))
