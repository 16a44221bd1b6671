-- ===== src/Network/Threads/Locals.antt =====
-- The maps of the network threads by the index of the thread.
use sekkeizu.Base.{
  ℕ, zero, suc, ◌≡◌, refl, subst, ◌∙◌, some, List, [], ◌∷◌, arith, if◌then◌else◌, ◌==◌, map, All,
}
use sekkeizu.Network.Defs.{Local, get_local, set_local}

pub get_local-set_local :
    (i j : ℕ) (l v : Local) (ls : List Local)
    → get_local i ls ≡ some l
    → get_local j (set_local i v ls) ≡ (if i == j then some v else get_local j ls)
get_local-set_local i j l v [] h = absurd (cc)
get_local-set_local zero zero l v (x ∷ ls) h = refl
get_local-set_local zero (suc j) l v (x ∷ ls) h = ground arith
get_local-set_local (suc i) zero l v (x ∷ ls) h = ground arith
get_local-set_local (suc i) (suc j) l v (x ∷ ls) h = get_local-set_local i j l v ls h ∙ ground arith

pub get_local-map :
    (f : Local → Local) (j : ℕ) (l : Local) (ls : List Local)
    → get_local j (map f ls) ≡ some l
    → (l' : Local) × (get_local j ls ≡ some l') × (l ≡ f l')
get_local-map f j l [] h = absurd (cc)
get_local-map f zero l (x ∷ ls) h = (x, refl, ground arith)
get_local-map f (suc j) l (x ∷ ls) h = get_local-map f j l ls h

pub All-get_local {κ} :
    (P : Local → Type κ) (j : ℕ) (l : Local) (ls : List Local)
    → All P ls
    → get_local j ls ≡ some l
    → P l
All-get_local P j l [] a h = absurd (cc)
All-get_local P zero l (x ∷ ls) a h = subst P (ground arith) a.0
All-get_local P (suc j) l (x ∷ ls) a h = All-get_local P j l ls a.1 h
