-- ===== src/Python/Methods.antt =====
-- Methods that change an object and may raise: what was written before a raise stays written.
use sharpearena.Prelude.{◌≡◌, refl, Bool, true, false, if◌then◌else◌}
use sharpearena.Python.Errors.{Result, ok, err}

abbrev pub Method : Type 0 → Type 0 → Type 0
Method S A = S → Result A × S

module _ {S A : Type 0} where
  abbrev pub pure : A → Method S A
  pure a s = (ok a, s)

  abbrev pub lift : Result A → Method S A
  lift r s = (r, s)

  abbrev pub gets : (S → A) → Method S A
  gets f s = (ok (f s), s)

abbrev pub modify : {S : Type 0} → (S → S) → Method S (Unit {0})
modify f s = (ok tt, f s)

module _ {S A B : Type 0} where
  abbrev pub continue : Result A → (A → Method S B) → Method S B
  continue (ok a) f s = f a s
  continue (err e) f s = (err e, s)

  infixl 5 ◌>>=◌ ◌>>◌
  abbrev pub ◌>>=◌ : Method S A → (A → Method S B) → Method S B
  ◌>>=◌ m f s = let (r, s') = m s in continue r f s'

  abbrev pub ◌>>◌ : Method S A → Method S B → Method S B
  m >> n = m >>= λ _. n

module _ {S A B : Type 0} where
  continue-eq-ok :
      (c : Result A) (f : A → Method S B) (s s' : S) (b : B)
      → continue c f s ≡ (ok b, s')
      → (a : A) × (c ≡ ok a) × (f a s ≡ (ok b, s'))
  continue-eq-ok (ok a) f s s' b h = (a, refl, h)
  continue-eq-ok (err e) f s s' b h = cc

  -- What returned was returned by both parts.
  pub >>=-eq-ok :
      (m : Method S A) (f : A → Method S B) (s s' : S) (b : B)
      → (m >>= f) s ≡ (ok b, s')
      → (a : A) × ((m s).0 ≡ ok a) × (f a (m s).1 ≡ (ok b, s'))
  >>=-eq-ok m f s s' b h = continue-eq-ok (m s).0 f (m s).1 s' b h

-- A method keeps P, however it ends.
unfoldable pub Keeps : {S A : Type 0} → (S → Type 0) → Method S A → Type 0
Keeps P m = (s : _) → P s → P (m s).1

module _ {S A B : Type 0} (P : S → Type 0) where
  continue-Keeps :
      (c : Result A) (f : A → Method S B)
      → ((a : A) → Keeps P (f a))
      → (s : S) → P s
      → P (continue c f s).1
  unfolding Keeps
  continue-Keeps (ok a) f kf s h = kf a s h
  continue-Keeps (err e) f kf s h = h

  pub bind-Keeps :
      (m : Method S A) (f : A → Method S B)
      → Keeps P m
      → ((a : A) → Keeps P (f a))
      → Keeps P (m >>= f)
  unfolding Keeps
  bind-Keeps m f km kf s h = continue-Keeps (m s).0 f kf (m s).1 (km s h)

module _ {S A B : Type 0} (P : S → Type 0) where
  continue-at :
      (c : Result A) (f : A → Method S B) (s : S)
      → ((a : A) → c ≡ ok a → P (f a s).1)
      → P s
      → P (continue c f s).1
  continue-at (ok a) f s k h = k a refl
  continue-at (err e) f s k h = h

  -- The same at one state, with what the first part returned there.
  pub bind-at :
      (m : Method S A) (f : A → Method S B) (s : S)
      → ((a : A) → (m s).0 ≡ ok a → P (f a (m s).1).1)
      → P (m s).1
      → P ((m >>= f) s).1
  bind-at m f s k h = continue-at (m s).0 f (m s).1 k h

module _ {S A : Type 0} (P : S → Type 0) where
  pub if-Keeps :
      (b : Bool) (m n : Method S A) → Keeps P m → Keeps P n → Keeps P (if b then m else n)
  unfolding Keeps
  if-Keeps true m n km kn = km
  if-Keeps false m n km kn = kn

module _ {S A : Type 0} (P : S → Type 0) where
  pub pure-Keeps : (a : A) → Keeps P (pure a)
  unfolding Keeps
  pure-Keeps a s h = h

  pub lift-Keeps : (c : Result A) → Keeps P (lift c)
  unfolding Keeps
  lift-Keeps c s h = h

  pub gets-Keeps : (f : S → A) → Keeps P (gets f)
  unfolding Keeps
  gets-Keeps f s h = h

module _ {S A : Type 0} (P : S → Type 0) (m : Method S A) where
  pub keeps : ((s : S) → P s → P (m s).1) → Keeps P m
  unfolding Keeps
  keeps h = h

  pub kept : Keeps P m → (s : S) → P s → P (m s).1
  unfolding Keeps
  kept h = h

pub modify-Keeps :
    {S : Type 0} (P : S → Type 0) (f : S → S) → ((s : S) → P s → P (f s)) → Keeps P (modify f)
unfolding Keeps
modify-Keeps P f h = h

-- Where P holds before a method, Q holds after it, however it ends.
unfoldable pub Leads : {S A : Type 0} → (S → Type 0) → (S → Type 0) → Method S A → Type 0
Leads P Q m = (s : _) → P s → Q (m s).1

pub bind-Leads :
    {S A B : Type 0} (P Q : S → Type 0) (m : Method S A) (f : A → Method S B)
    → Keeps P m
    → ((s : S) → P s → Q s)
    → ((a : A) → Leads P Q (f a))
    → Leads P Q (m >>= f)
unfolding Keeps Leads
bind-Leads P Q m f km w kf s h = bind-at Q m f s (λ a e. kf a (m s).1 (km s h)) (w (m s).1 (km s h))

-- Where P holds before a method and it returns, Q holds after it.
unfoldable pub Ensures : {S A : Type 0} → (S → Type 0) → (S → Type 0) → Method S A → Type 0
Ensures {A} P Q m = (s : _) → P s → (a : A) → (m s).0 ≡ ok a → Q (m s).1

module _ {S A B : Type 0} (P Q R : S → Type 0) where
  continue-Ensures :
      (c : Result A) (f : A → Method S B)
      → ((a : A) → Ensures Q R (f a))
      → (s : S) → ((a : A) → c ≡ ok a → Q s)
      → (b : B) → (continue c f s).0 ≡ ok b
      → R (continue c f s).1
  unfolding Ensures
  continue-Ensures (ok a) f kf s h b e = kf a s (h a refl) b e
  continue-Ensures (err x) f kf s h b e = cc

  pub bind-Ensures :
      (m : Method S A) (f : A → Method S B)
      → Ensures P Q m
      → ((a : A) → Ensures Q R (f a))
      → Ensures P R (m >>= f)
  unfolding Ensures
  bind-Ensures m f km kf s h = continue-Ensures (m s).0 f kf (m s).1 (km s h)

module _ {S A : Type 0} (P Q : S → Type 0) where
  -- What is kept, and what holds of every end.
  pub Keeps-Ensures : (m : Method S A) → Keeps P m → Ensures P P m
  unfolding Keeps Ensures
  Keeps-Ensures m k s h a e = k s h

  pub Ensures-any : (m : Method S A) → ((s : S) → Q s) → Ensures P Q m
  unfolding Ensures
  Ensures-any m q s h a e = q (m s).1

-- Where a method raises, P holds of the state that it leaves.
abbrev pub RaisesIn : {S A : Type 0} → (S → Type 0) → Result A × S → Type 0
RaisesIn P (ok _, s) = Unit
RaisesIn P (err _, s) = P s

module _ {S A B : Type 0} (P : S → Type 0) where
  pub continue-RaisesIn :
      (c : Result A) (f : A → Method S B) (s : S)
      → P s
      → ((a : A) → RaisesIn P (f a s))
      → RaisesIn P (continue c f s)
  continue-RaisesIn (ok a) f s h k = k a
  continue-RaisesIn (err e) f s h k = h

  pub then-pure-RaisesIn :
      (res : Result A) (b : B) (s : S)
      → RaisesIn P (res, s)
      → RaisesIn P (continue res (λ _. pure b) s)
  then-pure-RaisesIn (ok a) b s h = tt
  then-pure-RaisesIn (err e) b s h = h
