-- ===== src/Stress/Serving.antt =====
-- That a server which keeps its tickets lets the run pass.
use Prim.Native.String.{[], ◌∷◌}
use polyglot_ticketing_v.Base.{String, [], ◌∷◌}
use polyglot_ticketing_v.Value.{Value}
