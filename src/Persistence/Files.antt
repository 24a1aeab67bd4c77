-- ===== src/Persistence/Files.antt =====
-- The file system as the persistence code sees it: paths are byte strings, files are bytes.
use mathlib.Core.Logic.{ite, if_pos, if_neg}
use reflex_llm.Base.{ℕ, ◌≡◌, refl, ◌≢◌, List, Option, ℕ_discrete}

abbrev pub FilePath : Type 0
FilePath = List ℕ

unfoldable pub path_discrete : Discrete (List ℕ)
path_discrete = hlevel ℕ_discrete

abbrev pub Files : Type 0
Files = FilePath → Option (List ℕ)

pub update : Files → FilePath → Option (List ℕ) → Files
update fs p content q = ite (path_discrete q p) content (fs q)

pub update_self : (fs : Files) (p : FilePath) (c : Option (List ℕ)) → update fs p c p ≡ c
unfolding update
update_self fs p c = if_pos (path_discrete p p) refl c (fs p)

pub update_ne : (fs : Files) (p q : FilePath) (c : Option (List ℕ)) → q ≢ p → update fs p c q ≡ fs q
unfolding update
update_ne fs p q c h = if_neg (path_discrete q p) h c (fs q)
