-- ===== src/Registry/Remove/Law.antt =====
-- What `oddjob_dbus_listeners_remove_method` does for every call.
use oddjob_gpupdate.Prelude.{
  ℕ, ◌<◌, ◌≡◌, refl, ◌⊎◌, inl, inr, arith, Bool, false, List, none, some, Bytes, ltb, le→not-ltb,
  not-ltb→le, Bool-cases, Option-cases, length, Returns, Breaks,
}
use oddjob_gpupdate.Util.Memory.{Ample}
use oddjob_gpupdate.Registry.Table.{find}
use oddjob_gpupdate.Registry.Table.Found.{find-Stops, find-none, Stops}
use oddjob_gpupdate.Registry.Table.Laws.{length-remove}
use oddjob_gpupdate.Registry.Types.{Context, method_name, interface_name, object_path, service_name}
use oddjob_gpupdate.Registry.Remove.{find_method, locate_in, remove_method}
use oddjob_gpupdate.Registry.Remove.Levels.{
  Leads, objects_left, interfaces_left, methods_left, find_method-Leads, drop_method-left,
}
use oddjob_gpupdate.Registry.Remove.Whole.{
  Removed, stop_service-only, stop_service-Breaks, unknown-Removed, kept-Removed, only-Removed,
}
use oddjob_gpupdate.Registry.Lookup.{IsTree, IsRoomy, lookup, in_service, in_object, in_interface}

locate_in-some :
    {A : Type 0} (name : A → Bytes) (k : Bytes) (xs : List A) {x : A} (st : Stops name k xs x)
    → locate_in name k xs ≡ some (st.at, x)
unfolding locate_in
locate_in-some name k xs st = rw (st.index, locate_in) (rw (st.elem))

locate_in-none :
    {A : Type 0} (name : A → Bytes) (k : Bytes) (xs : List A)
    → find name k xs ≡ none
    → locate_in name k xs ≡ none
unfolding locate_in
locate_in-none name k xs e = rw ((find-none name k xs e).0, locate_in)

module _ (ctx : Context) (s p i m : Bytes) where
  -- The four names lead to a method, or the search finds nothing.
  pub Leads-cases :
      Leads ctx s p i m ⊎ ((find_method ctx s p i m ≡ none) × (lookup ctx s p i m ≡ none))
  unfolding find_method
  Leads-cases = elim (Option-cases (find service_name s ctx.services)) [
    | inl e ↦ inr (rw (locate_in-none service_name s ctx.services e, find_method), rw (e, lookup))
    | inr (srv, e) ↦ elim (Option-cases (find object_path p srv.objects)) [
      | inl f ↦ inr (
        rw
            (
              locate_in-some service_name s ctx.services (find-Stops service_name s ctx.services e),
              find_method,
            )
            (rw (locate_in-none object_path p srv.objects f) refl),
        rw (e, lookup) (rw (f, in_service)),
      )
      | inr (obj, f) ↦ elim (Option-cases (find interface_name i obj.interfaces)) [
        | inl g ↦ inr (
          rw
              (
                locate_in-some service_name s ctx.services
                    (find-Stops service_name s ctx.services e),
                find_method,
              )
              (rw
                (locate_in-some object_path p srv.objects (find-Stops object_path p srv.objects f))
                (rw (locate_in-none interface_name i obj.interfaces g) refl)),
          rw (e, lookup) (rw (f, in_service) (rw (g, in_object))),
        )
        | inr (interf, g) ↦ elim (Option-cases (find method_name m interf.methods)) [
          | inl h ↦ inr (
            rw
                (
                  locate_in-some service_name s ctx.services
                      (find-Stops service_name s ctx.services e),
                  find_method,
                )
                (rw
                  (locate_in-some object_path p srv.objects
                    (find-Stops object_path p srv.objects f))
                  (rw
                    (locate_in-some interface_name i obj.interfaces
                      (find-Stops interface_name i obj.interfaces g))
                    (rw ((find-none method_name m interf.methods h).0) refl))),
            rw (e, lookup) (rw (f, in_service) (rw (g, in_object) (rw (h, in_interface)))),
          )
          | inr (meth, h) ↦ inl (record {
            srv = srv;
            obj = obj;
            interf = interf;
            meth = meth;
            srv_found = e;
            obj_found = f;
            interf_found = g;
            meth_found = h;
          })
        ]
      ]
    ]
  ]

  -- The service of the method offers something else too.
  abbrev pub KeepsService : Leads ctx s p i m → Type 0
  KeepsService l = 0 < length (objects_left p i m l.interf l.obj l.srv)

  module _ (fits : ℕ → Bool) (ample : Ample fits) (h : IsRoomy ctx) where
    -- In a well-formed tree whose arrays are not full, with memory for every request, and unless
    -- it takes the last method of one of several services, oddjob_dbus_listeners_remove_method
    -- returns TRUE; the four names then lead to no method, any other four lead to what they led
    -- to before, and the tree is well-formed (names unique, nothing empty).
    pub remove_method-Removed :
        IsTree ctx
        → ((l : Leads ctx s p i m) → (length ctx.services ≡ 1) ⊎ KeepsService l)
        → Returns (Removed ctx s p i m) (remove_method fits ctx s p i m)
    unfolding remove_method
    remove_method-Removed tree c = elim Leads-cases [
      | inr (e, f) ↦ rw (e, remove_method) (unknown-Removed ctx s p i m tree f)
      | inl l ↦
          rw (find_method-Leads ctx s p i m l, remove_method)
            (rw (drop_method-left ctx s p i m l fits ample h)
              (elim (Bool-cases (ltb 0 (length (objects_left p i m l.interf l.obj l.srv)))) [
                | inl t ↦ rw t (kept-Removed ctx s p i m tree l t)
                | inr t ↦ rw t (elim (c l) [
                  | inl one ↦
                      rw (stop_service-only ctx s p i m l fits one)
                        (only-Removed ctx s p i m tree l t one)
                  | inr more ↦ absurd (omega (arith, not-ltb→le 0 _ t))
                ])
              ]))
    ]

    -- Where the context has several services, with memory for every request and arrays that are
    -- not full, oddjob_dbus_listeners_remove_method of the only method of the only interface of
    -- the only object of a service never returns: the process ends with status 1, or the code
    -- accesses memory that it does not own.
    pub remove_method_last :
        (l : Leads ctx s p i m)
        → 1 < length ctx.services
        → length l.srv.objects ≡ 1
        → length l.obj.interfaces ≡ 1
        → length l.interf.methods ≡ 1
        → Breaks (remove_method fits ctx s p i m)
    unfolding remove_method
    remove_method_last l n o j k =
        let no_methods : ltb 0 (length (methods_left m l.interf)) ≡ false =
          le→not-ltb 0 _
            (omega (arith, length-remove method_name m l.interf.methods l.meth_found)) in
        let no_interfaces : ltb 0 (length (interfaces_left i m l.interf l.obj)) ≡ false =
          rw no_methods (
            le→not-ltb 0 _
              (omega (arith, length-remove interface_name i l.obj.interfaces l.interf_found))) in
        let no_objects : ltb 0 (length (objects_left p i m l.interf l.obj l.srv)) ≡ false =
          rw no_interfaces (
            le→not-ltb 0 _
              (omega (arith, length-remove object_path p l.srv.objects l.obj_found))) in
        rw (find_method-Leads ctx s p i m l, remove_method)
          (rw (drop_method-left ctx s p i m l fits ample h)
            (rw no_objects (stop_service-Breaks ctx s p i m l fits n)))
