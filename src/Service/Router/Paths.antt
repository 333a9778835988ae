-- ===== src/Service/Router/Paths.antt =====
-- Which paths the routes stand for.
use purepy.Base.{◌++◌, Bytes, codes}

abbrev pub users : Bytes
users = codes "/users/"

abbrev pub increment : Bytes
increment = codes "/increment/"

-- The shape of the text behind "/users/" in an update.
abbrev pub update_rest : Bytes → Bytes → Bytes
update_rest a b = a ++ (increment ++ b)
