-- ===== src/Path/Tests.antt =====
-- Guest paths of kernel/path.rs.
use wasmux.Prelude.{◌≡◌, refl, [], ◌∷◌, All, codes}
use wasmux.Path.{normalize}
use wasmux.Path.Normal.{IsName, normalize-IsName}

normalize-run :
    normalize (codes "/usr") (codes "../../etc/./passwd/") ≡ codes "etc" ∷ codes "passwd" ∷ []
unfolding normalize
normalize-run = refl

normalize-IsName_example : All IsName (normalize (codes "/usr") (codes "../../etc/./passwd/"))
normalize-IsName_example = normalize-IsName (codes "/usr") (codes "../../etc/./passwd/")
