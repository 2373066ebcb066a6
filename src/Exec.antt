-- ===== src/Exec.antt =====
-- A service method reads and writes the world and may throw. What was written before a throw stays
-- written, so the world comes back beside the error too.
use task_scheduling_platform.Base.{◌≡◌, refl, [], ◌∷◌, ◌++◌, Option, none, some, Bool, true, false}
use task_scheduling_platform.Http.{HttpException, Result, ok, err}
use task_scheduling_platform.World.{World, Event}

abbrev pub Exec : Type 0 → Type 0
Exec A = World → Result A × World

abbrev pub continue : {A B : Type 0} → Result A → (A → Exec B) → Exec B
continue (ok a) f w = f a w
continue (err e) f w = (err e, w)

infixl 5 ◌>>=◌ ◌>>◌
abbrev pub ◌>>=◌ : {A B : Type 0} → Exec A → (A → Exec B) → Exec B
◌>>=◌ m f w = let (r, w') = m w in continue r f w'

abbrev pub ◌>>◌ : {A B : Type 0} → Exec A → Exec B → Exec B
m >> k = m >>= λ _. k

abbrev pub pure : {A : Type 0} → A → Exec A
pure a w = (ok a, w)

abbrev pub throw : {A : Type 0} → HttpException → Exec A
throw e w = (err e, w)

-- A query: it reads the world and leaves it.
abbrev pub gets : {A : Type 0} → (World → A) → Exec A
gets f w = (ok (f w), w)

abbrev pub modify : (World → World) → Exec (Unit {0})
modify f w = (ok tt, f w)

-- A query that may fail.
abbrev pub lift : {A : Type 0} → Result A → Exec A
lift r w = (r, w)

-- `if (!x) throw e`
abbrev pub or_throw : {A : Type 0} → HttpException → Option A → Exec A
or_throw e none = throw e
or_throw e (some a) = pure a

-- `if (b) throw e`
abbrev pub throw_if : Bool → HttpException → Exec (Unit {0})
throw_if true e = throw e
throw_if false e = pure tt

-- `this.events.emit(…)`
abbrev pub emit : Event → Exec (Unit {0})
emit e = modify (λ w. record w { events = w.events ++ e ∷ [] })

-- A method that changes nothing.
abbrev pub IsQuery : {A : Type 0} → Exec A → Type 0
IsQuery m = (w : World) → (m w).1 ≡ w

continue-eq-ok :
    {A B : Type 0} (r : Result A) (f : A → Exec B) (v w' : World) {b : B}
    → continue r f v ≡ (ok b, w')
    → (a : A) × (u : World) × (◌≡◌ {A = Result A × World} (r, v) (ok a, u)) × (f a u ≡ (ok b, w'))
continue-eq-ok (ok a) f v w' h = (a, v, refl, h)
continue-eq-ok (err e) f v w' h = cc

-- The first step of a method that succeeded has succeeded.
pub >>=-eq-ok :
    {A B : Type 0} (m : Exec A) (f : A → Exec B) (w w' : World) {b : B}
    → (m >>= f) w ≡ (ok b, w')
    → (a : A) × (v : World) × (m w ≡ (ok a, v)) × (f a v ≡ (ok b, w'))
>>=-eq-ok m f w w' h = let (r, v) = m w in continue-eq-ok r f v w' h

continue-pure :
    {A B : Type 0} (r : Result A) (g : A → B) (v : World) → (continue r (λ a. pure (g a)) v).1 ≡ v
continue-pure (ok a) g v = refl
continue-pure (err e) g v = refl

-- Handing the result on leaves the world.
pub >>=-pure :
    {A B : Type 0} (m : Exec A) (g : A → B) (w : World) → ((m >>= λ a. pure (g a)) w).1 ≡ (m w).1
>>=-pure m g w = let (r, v) = m w in continue-pure r g v

continue-world :
    {A B : Type 0} (P Q : World → Type 0) (r : Result A) (f : A → Exec B) (v : World)
    → P v
    → ((u : World) → P u → Q u)
    → ((a : A) (u : World) → P u → Q (f a u).1)
    → Q (continue r f v).1
continue-world P Q (ok a) f v h thrown k = k a v h
continue-world P Q (err e) f v h thrown k = thrown v h

-- What holds of the world after two steps, the second of which a throw in the first leaves out.
pub >>=-world :
    {A B : Type 0} (P Q : World → Type 0) (m : Exec A) (f : A → Exec B) (w : World)
    → P (m w).1
    → ((u : World) → P u → Q u)
    → ((a : A) (u : World) → P u → Q (f a u).1)
    → Q ((m >>= f) w).1
>>=-world P Q m f w h thrown k = continue-world P Q (m w).0 f (m w).1 h thrown k
