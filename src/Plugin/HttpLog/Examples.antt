-- ===== src/Plugin/HttpLog/Examples.antt =====
-- The log of two requests.
use dealer.Base.{List, [], ◌∷◌}
use dealer.Plugin.HttpLog.Stream.{Event, request, flushed}

abbrev events : List Event
events = request "t" "GET" "/a" "1" ∷ flushed ∷ request "u" "PUT" "/b" "" ∷ []
