-- ===== src/App/Loader.antt =====
-- app/batch_engine.py, `load_engine_module` and `_load_engine`: the module that both the batch and the
-- risk service use is loaded once. The import system is a parameter.
use dost_review_api.Prelude.{
  String, Bool, not, ◌==◌, ◌≡◌, refl, ◌∙◌, Option, none, some, arith, Option-cases, inl, inr,
  if◌then◌else◌,
}

-- `_engine_mod` and `_engine_fn`.
pub record Loaded (M F : Type 0) : Type 0 where
  pub engine_mod : Option M
  pub engine_fn : Option F

-- The file system and the import system. `engine_file` is `Path(p) / "engine.py"`, `imports` is
-- `module_from_spec` with `exec_module`, `none` where there is no spec or an exception.
pub record Machine (M : Type 0) : Type 0 where
  pub vendor : String
  pub engine_file : String → String
  pub exists : String → Bool
  pub imports : String → Option M

module _ {M : Type 0} where
  -- The directory, `""` where there is none.
  unfoldable pub engine_dir : Machine M → String → String
  engine_dir machine engine_path =
      if engine_path == ""
      then (if machine.exists (machine.engine_file machine.vendor) then machine.vendor else "")
      else engine_path

  -- The import from a directory; `none` is an ImportError or what the module raises.
  unfoldable pub import_from : Machine M → String → Option M
  import_from machine dir =
      if dir == ""
      then none
      else if not (machine.exists (machine.engine_file dir))
      then none
      else machine.imports (machine.engine_file dir)

module _ {M F : Type 0} where
  unfoldable pub keep_module : Loaded M F → Option M → Option M × Loaded M F
  keep_module loaded none = (none, loaded)
  keep_module loaded (some m) = (some m, record loaded { engine_mod = some m })

  unfoldable pub load_unless : Machine M → String → Loaded M F → Option M → Option M × Loaded M F
  load_unless machine engine_path loaded (some m) = (some m, loaded)
  load_unless machine engine_path loaded none =
      keep_module loaded (import_from machine (engine_dir machine engine_path))

  -- `load_engine_module`.
  unfoldable pub load_engine_module : Machine M → String → Loaded M F → Option M × Loaded M F
  load_engine_module machine engine_path loaded =
      load_unless machine engine_path loaded loaded.engine_mod

-- `member` reads the attribute `process_reputation` of a module.
module _ {M F : Type 0} (member : M → Option F) where
  unfoldable pub keep_function : Loaded M F → Option F → Option F × Loaded M F
  keep_function loaded none = (none, loaded)
  keep_function loaded (some f) = (some f, record loaded { engine_fn = some f })

  unfoldable pub function_of : Option M × Loaded M F → Option F × Loaded M F
  function_of (none, loaded) = (none, loaded)
  function_of (some m, loaded) = keep_function loaded (member m)

  unfoldable pub load_unless_known :
      Machine M → String → Loaded M F → Option F → Option F × Loaded M F
  load_unless_known machine engine_path loaded (some f) = (some f, loaded)
  load_unless_known machine engine_path loaded none =
      function_of (load_engine_module machine engine_path loaded)

  -- `_load_engine`.
  unfoldable pub load_engine : Machine M → String → Loaded M F → Option F × Loaded M F
  load_engine machine engine_path loaded =
      load_unless_known machine engine_path loaded loaded.engine_fn

-- The function in use, if there is one, is that of the module in use.
module _ {M F : Type 0} (member : M → Option F) where
  abbrev Fits : Option M → Option F → Type 0
  Fits engine_mod none = Unit
  Fits engine_mod (some f) = (m : M) × (engine_mod ≡ some m) × (member m ≡ some f)

  abbrev pub IsConsistent : Loaded M F → Type 0
  IsConsistent loaded = Fits loaded.engine_mod loaded.engine_fn

module _ {M F : Type 0} (machine : Machine M) (path : String) (loaded : Loaded M F) where
  loaded_module :
      (m : M)
      → (load_engine_module machine path loaded).0 ≡ some m
      → (load_engine_module machine path loaded).1.engine_mod ≡ some m
  unfolding load_engine_module load_unless keep_module
  loaded_module m h = ground (
    arith,
    Option-cases loaded.engine_mod,
    Option-cases (import_from machine (engine_dir machine path)),
  )

  loaded_function : (load_engine_module machine path loaded).1.engine_fn ≡ loaded.engine_fn
  unfolding load_engine_module load_unless keep_module
  loaded_function = ground (
    arith,
    Option-cases loaded.engine_mod,
    Option-cases (import_from machine (engine_dir machine path)),
  )

module _ {M F : Type 0} (member : M → Option F) where
  -- What a call of `_load_engine` that returns the function leaves.
  abbrev Uses : F → Loaded M F → Type 0
  Uses f loaded = (m : M) × (loaded.engine_mod ≡ some m) × (member m ≡ some f)

  function-Uses :
      (f : F) (x : Option M × Loaded M F)
      → ((m : M) → x.0 ≡ some m → x.1.engine_mod ≡ some m)
      → (function_of member x).0 ≡ some f
      → Uses f (function_of member x).1
  unfolding function_of keep_function
  function-Uses f (none, l) inv h = cc
  function-Uses f (some m, l) inv h = elim (Option-cases (member m)) [
    | inl e ↦ absurd (ground (arith, e))
    | inr (g, e) ↦ (m, rw (e, keep_function) (inv m refl), ground (arith, e))
  ]

  known-Uses :
      (machine : Machine M) (path : String) (f : F) (loaded : Loaded M F) (fn : Option F)
      → Fits member loaded.engine_mod fn
      → (load_unless_known member machine path loaded fn).0 ≡ some f
      → Uses f (load_unless_known member machine path loaded fn).1
  unfolding load_unless_known
  known-Uses machine path f loaded none fits h =
      function-Uses f (load_engine_module machine path loaded) (loaded_module machine path loaded) h
  known-Uses machine path f loaded (some g) (m, at, is) h = (m, at, is ∙ h)

  -- From a state in which the function in use, if there is one, is of the module in use: when the batch
  -- has its function, every later call of the risk service is given the module that the function is of,
  -- whatever is on the disk or in the settings by then, and changes nothing.
  pub engine_shared :
      (machine later : Machine M) (path path' : String) (loaded : Loaded M F) (f : F)
      → IsConsistent member loaded
      → (load_engine member machine path loaded).0 ≡ some f
      → (m : M) × (load_engine_module later path' (load_engine member machine path loaded).1
          ≡ (some m, (load_engine member machine path loaded).1))
        × (member m ≡ some f)
  unfolding load_engine load_engine_module
  engine_shared machine later path path' loaded f consistent h =
      let (m, at, is) = known-Uses machine path f loaded loaded.engine_fn consistent h in
      (m, rw at (unfold load_unless in refl), is)

  function-IsConsistent :
      (x : Option M × Loaded M F)
      → ((m : M) → x.0 ≡ some m → x.1.engine_mod ≡ some m)
      → x.1.engine_fn ≡ none
      → IsConsistent member (function_of member x).1
  unfolding function_of keep_function
  function-IsConsistent (none, l) inv e = rw e tt
  function-IsConsistent (some m, l) inv e = elim (Option-cases (member m)) [
    | inl q ↦ rw (q, keep_function) (rw e tt)
    | inr (g, q) ↦ rw (q, keep_function) (m, inv m refl, q)
  ]

  known-IsConsistent :
      (machine : Machine M) (path : String) (loaded : Loaded M F) (fn : Option F)
      → loaded.engine_fn ≡ fn
      → IsConsistent member loaded
      → IsConsistent member (load_unless_known member machine path loaded fn).1
  unfolding load_unless_known
  known-IsConsistent machine path loaded none e c =
      function-IsConsistent (load_engine_module machine path loaded)
        (loaded_module machine path loaded) (loaded_function machine path loaded ∙ e)
  known-IsConsistent machine path loaded (some f) e c = c

  -- `_load_engine` keeps the function and the module together, whether it returns or raises.
  pub load_engine-IsConsistent :
      (machine : Machine M) (path : String) (loaded : Loaded M F)
      → IsConsistent member loaded
      → IsConsistent member (load_engine member machine path loaded).1
  unfolding load_engine
  load_engine-IsConsistent machine path loaded =
      known-IsConsistent machine path loaded loaded.engine_fn refl
