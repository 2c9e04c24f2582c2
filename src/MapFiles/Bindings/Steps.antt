-- ===== src/MapFiles/Bindings/Steps.antt =====
-- Sequences of calls of the Python module of Extensions/MapFiles/pydll.cpp.
use buildpal.Prelude.{
  ℕ, ◌+◌, ◌^◌, ◌<◌, ◌≡◌, sym, subst, ◌≢◌, inl, inr, none, some, Option-cases, List, [], drop, All,
  arith, ℕ_discrete,
}
use buildpal.Prelude.Assoc.{lookup}
use buildpal.Common.ApiHooks.{ApiHookHelper, new_helper}
use buildpal.MapFiles.Paths.{PathApi}
use buildpal.MapFiles.Mapping.{DirMap, add_file}
use buildpal.MapFiles.Maps.{HookData, initial, map_file, map_file_global, unmap_file_global}
use buildpal.MapFiles.Maps.Ids.{map_of, map_file-maps}
use buildpal.MapFiles.Bindings.{
  Session, Answer, put, enable, disable, PyObject, file_map_new, file_map_init, file_map_dealloc,
  composition_new, composition_init, composition_dealloc, map_global_file, unmap_global_file,
  add_mapping, c_str,
}
use buildpal.MapFiles.Bindings.Owned.{
  IsOwned, Given, new-IsOwned, dealloc-IsOwned, init-IsOwned, composition_init-IsOwned,
}

abbrev pub no_objects : Session
no_objects = record {
  hooks = initial;
  api_hooks = new_helper;
  file_maps = λ a. none;
  compositions = λ c. none;
  tuple_refs = λ c. [];
}

module _ (api : PathApi) where
  -- a call from Python; the addresses are free where an object is made, arguments live, and an
  -- object that is deallocated is in no tuple to which a reference is left
  pub data Step : Session → Session → Type 0 where
    enabled : (s : Session) → Step s (enable s)
    disabled : (s : Session) → Step s (disable s)
    new : (s : Session) (a : ℕ) → s.file_maps a ≡ none → Step s (file_map_new s a)
    init : (s : Session) (a : ℕ) → s.hooks.counter + 1 < 2 ^ 32 → Step s (file_map_init s a)
    dealloc :
        (s : Session) (a : ℕ)
        → ((c : ℕ) → All (All (λ b. b ≢ a)) (s.tuple_refs c))
        → Step s (file_map_dealloc s a)
    map_one :
        (s : Session) (a : ℕ) (virtual_file real_file : List ℕ)
        → Step s (add_mapping api s a virtual_file real_file).0
    map_global :
        (s : Session) (virtual_file file : PyObject)
        → Step s (map_global_file api s virtual_file file).0
    unmap_global :
        (s : Session) (virtual_file : PyObject) → Step s (unmap_global_file api s virtual_file).0
    compose_new : (s : Session) (c : ℕ) → s.compositions c ≡ none → Step s (composition_new s c)
    compose_init :
        (s : Session) (c : ℕ) (args : List PyObject)
        → ((a : ℕ) → Given a args → (n : ℕ) × (s.file_maps a ≡ some n))
        → Step s (composition_init s c args).0
    compose_dealloc : (s t : Session) (c : ℕ) → composition_dealloc s c ≡ Answer.value t → Step s t

  pub data Reach (s : Session) : Session → Type 0 where
    here : Reach s s
    next : {t u : Session} → Reach s t → Step t u → Reach s u

  map_file-counter :
      (s : HookData) (id : ℕ) (path real : List ℕ)
      → (map_file api s id path real).0.counter ≡ s.counter
  unfolding map_file
  map_file-counter s id path real = ground arith

  mapped : Session → ℕ → List ℕ → List ℕ → Session
  mapped s n v r = record s { hooks = (map_file api s.hooks n (c_str v) (c_str r)).0 }

  add-mapped :
      (s : Session) (a : ℕ) (v r : List ℕ) (n : ℕ)
      → s.file_maps a ≡ some n
      → n ≢ 0
      → (add_mapping api s a v r).0 ≡ mapped s n v r
  unfolding add_mapping mapped
  add-mapped s a v r n e pos = ground arith

  add-unmapped :
      (s : Session) (a : ℕ) (v r : List ℕ)
      → s.file_maps a ≡ some 0
      → (add_mapping api s a v r).0 ≡ s
  unfolding add_mapping
  add-unmapped s a v r e = ground arith

  mapped-IsOwned : (s : Session) (k : ℕ) (v r : List ℕ) → IsOwned s → IsOwned (mapped s k v r)
  unfolding mapped
  mapped-IsOwned s k v r h =
      let maps = map_file-maps api s.hooks k (c_str v) (c_str r) in
      let counter = map_file-counter s.hooks k (c_str v) (c_str r) in
      record {
        live = λ b n f. elim (h.live b n f) [
          | inl z ↦ inl z
          | inr (dirs, m) ↦ inr (elim (ℕ_discrete n k) [
            | yes same ↦ (add_file api dirs (c_str v) (c_str r), ground (arith, (maps n).0))
            | no other ↦ (dirs, ground (arith, (maps n).0))
          ])
        ];
        apart = h.apart;
        held = h.held;
        referenced = h.referenced;
        counted = record {
          known = λ id dirs e. elim (Option-cases (map_of s.hooks id)) [
            | inl gone ↦ absurd (ground (arith, (maps id).0))
            | inr (old, m) ↦ omega (arith, h.counted.known id old m)
          ];
        };
      }

  add_mapping-IsOwned :
      (s : Session) (a : ℕ) (v r : List ℕ) → IsOwned s → IsOwned (add_mapping api s a v r).0
  unfolding add_mapping
  add_mapping-IsOwned s a v r h = elim (Option-cases (s.file_maps a)) [
    | inl e ↦ rw (e, add_mapping) h
    | inr (k, e) ↦ elim (ℕ_discrete k 0) [
      | yes z ↦ subst IsOwned (sym (add-unmapped s a v r (ground arith))) h
      | no pos ↦ subst IsOwned (sym (add-mapped s a v r k e pos)) (mapped-IsOwned s k v r h)
    ]
  ]

  compose_new-IsOwned : (s : Session) (c : ℕ) → IsOwned s → IsOwned (composition_new s c)
  unfolding composition_new
  compose_new-IsOwned s c h = record {
    live = h.live;
    apart = h.apart;
    held = λ d maps e. h.held d maps (ground arith);
    referenced = λ d maps e. h.referenced d maps (ground arith);
    counted = h.counted;
  }

  compose_dealloc-IsOwned :
      (s t : Session) (c : ℕ) → composition_dealloc s c ≡ Answer.value t → IsOwned s → IsOwned t
  unfolding composition_dealloc
  compose_dealloc-IsOwned s t c e h =
      let same : record s {
        compositions = put s.compositions c none;
        tuple_refs = put s.tuple_refs c (drop 1 (s.tuple_refs c));
      }
          ≡ t =
        ground arith in
      subst IsOwned same (record {
        live = h.live;
        apart = h.apart;
        held = λ d maps f. h.held d maps (ground arith);
        referenced = λ d maps f.
            let (rest, q) = h.referenced d maps (ground arith) in (rest, ground (arith, q, f));
        counted = h.counted;
      })

  -- a new global mapping touches nothing else
  global-IsOwned :
      (s : Session) (dirs : DirMap)
      → IsOwned s
      → IsOwned (record s { hooks = record s.hooks { global_mapping = dirs } })
  global-IsOwned s dirs h = record {
    live = h.live;
    apart = h.apart;
    held = h.held;
    referenced = h.referenced;
    counted = record { known = h.counted.known };
  }

  map_global-IsOwned :
      (s : Session) (v f : PyObject) → IsOwned s → IsOwned (map_global_file api s v f).0
  unfolding map_global_file map_file_global
  map_global-IsOwned s (PyObject.unicode v) (PyObject.unicode f) h = global-IsOwned s _ h
  map_global-IsOwned s (PyObject.unicode v) (PyObject.file_map a) h = h
  map_global-IsOwned s (PyObject.unicode v) PyObject.other h = h
  map_global-IsOwned s (PyObject.file_map a) f h = h
  map_global-IsOwned s PyObject.other f h = h

  unmap_global-IsOwned :
      (s : Session) (v : PyObject) → IsOwned s → IsOwned (unmap_global_file api s v).0
  unfolding unmap_global_file unmap_file_global
  unmap_global-IsOwned s (PyObject.unicode v) h = global-IsOwned s _ h
  unmap_global-IsOwned s (PyObject.file_map a) h = h
  unmap_global-IsOwned s PyObject.other h = h

  hooks-IsOwned :
      (s : Session) (api_hooks : ApiHookHelper)
      → IsOwned s
      → IsOwned (record s { api_hooks = api_hooks })
  hooks-IsOwned s api_hooks h = record {
    live = h.live;
    apart = h.apart;
    held = h.held;
    referenced = h.referenced;
    counted = h.counted;
  }

  Step-IsOwned : {s t : Session} → Step s t → IsOwned s → IsOwned t
  unfolding enable disable
  Step-IsOwned (enabled s) h = hooks-IsOwned s _ h
  Step-IsOwned (disabled s) h = hooks-IsOwned s _ h
  Step-IsOwned (new s a free) h = new-IsOwned s a free h
  Step-IsOwned (init s a small) h = init-IsOwned s a small h
  Step-IsOwned (dealloc s a unused) h = dealloc-IsOwned s a unused h
  Step-IsOwned (map_one s a v r) h = add_mapping-IsOwned s a v r h
  Step-IsOwned (map_global s v f) h = map_global-IsOwned s v f h
  Step-IsOwned (unmap_global s v) h = unmap_global-IsOwned s v h
  Step-IsOwned (compose_new s c free) h = compose_new-IsOwned s c h
  Step-IsOwned (compose_init s c args live) h = composition_init-IsOwned s c args live h
  Step-IsOwned (compose_dealloc s t c e) h = compose_dealloc-IsOwned s t c e h

  -- However Python calls the module, each object that has been initialised has a map of its own, and
  -- the objects of a composition's tuple live, since the composition has taken a reference to the
  -- tuple and not given it back: Python deallocates no object of a tuple that is referred to. This
  -- holds as long as the numbers have not come to their end.
  pub Reach-IsOwned : (s : Session) → Reach no_objects s → IsOwned s
  unfolding lookup
  Reach-IsOwned s here = record {
    live = λ a n e. absurd (ground arith);
    apart = λ a b n e f. absurd (ground arith);
    held = λ c maps e. absurd (ground arith);
    referenced = λ c maps e. absurd (ground arith);
    counted = record { known = λ id dirs e. absurd (ground arith) };
  }
  Reach-IsOwned s (next {t} r st) = Step-IsOwned st (Reach-IsOwned t r)
