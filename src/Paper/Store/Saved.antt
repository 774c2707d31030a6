-- ===== src/Paper/Store/Saved.antt =====
-- `save` and then the constructor: the table survives the process.
use mathlib.Core.List.{append_assoc, append-nil}
use sharpearena.Prelude.{String, ◌≡◌, refl, ap, ◌∙◌, false, some, List, [], ◌∷◌, ◌++◌, map, str_eq}
use sharpearena.Prelude.Dict.{Dict, insert}
use sharpearena.Python.Json.{Json}
use sharpearena.Python.Errors.{ok}
use sharpearena.Python.Runtime.{Runtime}
use sharpearena.Paper.Lifecycle.{OrderLifecycle}
use sharpearena.Paper.Lifecycle.Persist.{as_record}
use sharpearena.Paper.Lifecycle.Persist.Roundtrip.{IsPersistable, from_record-as_record}
use sharpearena.Paper.Store.{LifecycleStore, values, save, load, load_entries}

module _ {F : Type 0} ⦃r : Runtime F⦄ where
  -- No entry has this key.
  abbrev pub Apart : String → Dict (OrderLifecycle F) → Type 0
  Apart k [] = Unit
  Apart k ((j, l) ∷ d) = (str_eq k j ≡ false) × (str_eq j k ≡ false) × Apart k d

  -- Every lifecycle stands under its own id, once, and can be read back.
  abbrev pub IsKeyed : Dict (OrderLifecycle F) → Type 0
  IsKeyed [] = Unit
  IsKeyed ((k, l) ∷ d) = (l.client_order_id ≡ k) × Apart k d × IsPersistable l × IsKeyed d

  -- The keys of the first table do not occur in the second.
  abbrev Disjoint : Dict (OrderLifecycle F) → Dict (OrderLifecycle F) → Type 0
  Disjoint [] acc = Unit
  Disjoint ((k, l) ∷ d) acc = Apart k acc × Disjoint d acc

  insert_new :
      (k : String) (l : OrderLifecycle F) (acc : Dict (OrderLifecycle F))
      → Apart k acc
      → insert k l acc ≡ acc ++ ((k, l) ∷ [])
  unfolding insert
  insert_new k l [] h = refl
  insert_new k l ((j, x) ∷ acc) (p, q, h) = rw (q, insert_new k l acc h)

  Apart-append :
      (k j : String) (l : OrderLifecycle F) (acc : Dict (OrderLifecycle F))
      → Apart k acc
      → str_eq k j ≡ false
      → str_eq j k ≡ false
      → Apart k (acc ++ ((j, l) ∷ []))
  Apart-append k j l [] h p q = (p, q, tt)
  Apart-append k j l ((i, x) ∷ acc) (a, b, h) p q = (a, b, Apart-append k j l acc h p q)

  Disjoint-append :
      (d acc : Dict (OrderLifecycle F)) (k : String) (l : OrderLifecycle F)
      → Disjoint d acc
      → Apart k d
      → Disjoint d (acc ++ ((k, l) ∷ []))
  Disjoint-append [] acc k l h a = tt
  Disjoint-append ((j, x) ∷ d) acc k l (h, rest) (p, q, a) =
      (Apart-append j k l acc h q p, Disjoint-append d acc k l rest a)

  load_values :
      (d acc : Dict (OrderLifecycle F))
      → IsKeyed d
      → Disjoint d acc
      → load_entries (map as_record (values d)) acc ≡ ok (acc ++ d)
  unfolding load_entries values
  load_values [] acc h s = rw append-nil
  load_values ((k, l) ∷ d) acc (e, a, p, h) (s, rest) =
      rw (from_record-as_record l p, ap (λ z. insert z l acc) e ∙ insert_new k l acc s)
        (load_values d (acc ++ ((k, l) ∷ [])) h (Disjoint-append d acc k l rest a)
          ∙ ap ok (append_assoc acc ((k, l) ∷ []) d))

  Disjoint-empty : (d : Dict (OrderLifecycle F)) → Disjoint d []
  Disjoint-empty [] = tt
  Disjoint-empty ((k, l) ∷ d) = (tt, Disjoint-empty d)

  -- Where a store has a path, and in its table every lifecycle stands under its own nonempty id, once, with
  -- a receipt that its constructor accepts and that carries that id, or none, the saved file is loaded as
  -- the table that was saved.
  pub load-save :
      (store : LifecycleStore F) (old : List (Json F))
      → store.file ≡ some old
      → IsKeyed store.entries
      → load (save store).file ≡ ok (save store)
  unfolding load save
  load-save store old f h = rw (f, load_values store.entries [] h (Disjoint-empty store.entries))
