-- ===== src/Utils/Closers.antt =====
-- What is left of the errors of several closers (src/utils/multi_closer.go, Close).
use api_ratelimit.Common.{GoString, ◌≡◌, refl, Option, none, List, [], ◌∷◌, ◌++◌}
use api_ratelimit.Utils.{close_from, close}

close_from-append :
    (e : Option GoString) (rs : List (Option GoString)) (r : Option GoString)
    → close_from e (rs ++ r ∷ []) ≡ r
unfolding close_from
close_from-append e [] r = refl
close_from-append e (q ∷ rs) r = close_from-append q rs r

-- The result of closing several closers is that of the last one alone, whatever the others return.
pub close-append : (rs : List (Option GoString)) (r : Option GoString) → close (rs ++ r ∷ []) ≡ r
unfolding close
close-append rs r = close_from-append none rs r
