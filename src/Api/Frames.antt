-- ===== src/Api/Frames.antt =====
-- The calls that leave the workspaces, their members and the cache of memberships alone.
pub mod Work
pub mod Rest
pub mod Tables
use task_scheduling_platform.Base.{◌≡◌, refl, ◌∙◌}
use task_scheduling_platform.Http.{Result, ok, err}
use task_scheduling_platform.World.{World}
use task_scheduling_platform.Exec.{Exec, ◌>>=◌, continue, >>=-pure}
use task_scheduling_platform.Api.Context.{Reply, replies}

abbrev pub IsFrame : World → World → Type 0
IsFrame w w' = (w'.workspaces ≡ w.workspaces) × (w'.members ≡ w.members) × (w'.cache ≡ w.cache)

abbrev pub KeepsFrame : {A : Type 0} → Exec A → Type 0
KeepsFrame m = (w : World) → IsFrame w (m w).1

pub replies-KeepsFrame :
    {A : Type 0} (body : A → Reply) (m : Exec A) → KeepsFrame m → KeepsFrame (replies body m)
replies-KeepsFrame body m h w = rw (>>=-pure m body w) (h w)

continue-KeepsFrame :
    {A B : Type 0} (r : Result A) (f : A → Exec B) (v : World)
    → ((a : A) → KeepsFrame (f a))
    → IsFrame v (continue r f v).1
continue-KeepsFrame (ok a) f v h = h a v
continue-KeepsFrame (err e) f v h = (refl, refl, refl)

pub >>=-KeepsFrame :
    {A B : Type 0} (m : Exec A) (f : A → Exec B)
    → KeepsFrame m
    → ((a : A) → KeepsFrame (f a))
    → KeepsFrame (m >>= f)
>>=-KeepsFrame m f h k w =
    let (x, y, z) = h w in
    let (x', y', z') = continue-KeepsFrame (m w).0 f (m w).1 k in (x' ∙ x, y' ∙ y, z' ∙ z)
