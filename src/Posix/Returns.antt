-- ===== src/Posix/Returns.antt =====
-- What holds of each result that a program can return, whatever its calls do.
use sea.Prelude.{Bool, true, false, if◌then◌else◌}
use sea.Posix.{Os, Run, ran, undefined, M, then_run}

-- What a run returns, if it returns, is of that kind.
abbrev pub Returns : {A : Type 0} → (A → Type 0) → Run A → Type 0
Returns Q (ran a os) = Q a
Returns Q undefined = Unit

abbrev pub Always : {A : Type 0} → (A → Type 0) → M A → Type 0
Always Q m = (os : Os) → Returns Q (m os)

pub Returns-then_run :
    {A B : Type 0} (Q : B → Type 0) (f : A → M B)
    → ((a : A) → Always Q (f a))
    → (r : Run A) → Returns Q (then_run r f)
Returns-then_run Q f h (ran a os) = h a os
Returns-then_run Q f h undefined = tt

-- The same where what the first part returns matters.
pub Returns-then_run_if :
    {A B : Type 0} (R : A → Type 0) (Q : B → Type 0) (f : A → M B)
    → ((a : A) → R a → Always Q (f a))
    → (r : Run A) → Returns R r
    → Returns Q (then_run r f)
Returns-then_run_if R Q f h (ran a os) q = h a q os
Returns-then_run_if R Q f h undefined q = tt

pub if-Always :
    {A : Type 0} (Q : A → Type 0) (b : Bool) (m k : M A)
    → Always Q m
    → Always Q k
    → Always Q (if b then m else k)
if-Always Q true m k h g = h
if-Always Q false m k h g = g
