-- ===== src/Service/Router.antt =====
-- src/app/router.py: which operation a request asks for. The codes are 1 for health, 2 for a lookup,
-- 3 for an update, 4 for the event stream, and HTTP's 400 and 404.
pub mod Paths
use purepy.Base.{
  ℕ, ◌+◌, true, ◌&&◌, not, List, [], ◌∷◌, ◌==◌, if◌then◌else◌, Bytes, codes, text_eq, take, drop,
}
use purepy.Base.Int.{ℤ, pos, ◌+ℤ◌, ltb_ℤ}
use purepy.Base.Slice.{slice, slice_from, slice_to}
use purepy.Service.Types.{Request, Route}
use purepy.Service.Http.{minus_one, decimal}

-- The loop over the offsets of `rest`, from `offset` on: the first "/".
unfoldable pub find_slash : ℕ → Bytes → ℤ
find_slash offset [] = minus_one
find_slash offset (c ∷ rest) = if c == 47 then pos offset else find_slash (offset + 1) rest

abbrev pub made : ℕ → ℤ → ℤ → Route
made code user_id amount = record { code = code; user_id = user_id; amount = amount }

abbrev pub refused : ℕ → Route
refused code = made code (pos 0) (pos 0)

-- The branch of a path below "/users/", behind the prefix.
unfoldable pub route_user : Request → Bytes → Route
route_user request rest =
    let identifier = decimal rest in
    let separator = find_slash 0 rest in
    let user = decimal (slice_to rest separator) in
    let amount = decimal (slice_from rest (separator +ℤ pos 11)) in
    if text_eq request.method (codes "GET")
    then (if ltb_ℤ (pos 0) identifier then made 2 identifier (pos 0) else refused 400)
    else if ltb_ℤ (pos 0) separator
        && text_eq (slice rest separator (separator +ℤ pos 11)) (codes "/increment/")
    then (if ltb_ℤ (pos 0) user && ltb_ℤ (pos 0) amount then made 3 user amount else refused 400)
    else refused 400

unfoldable pub route : Request → Route
route request =
    if not request.valid
    then refused 400
    else if text_eq request.method (codes "GET") && text_eq request.path (codes "/health")
    then refused 1
    else if text_eq request.method (codes "GET") && text_eq request.path (codes "/events")
    then refused 4
    else if text_eq (take 7 request.path) (codes "/users/")
    then route_user request (drop 7 request.path)
    else refused 404
