-- ===== src/Auth/Routes/Base.antt =====
-- review_auth.py: the entries that the module registers itself.
use dub_titlerr.Prelude.{List, [], ◌∷◌}
use dub_titlerr.Text.{Text, codes}
use dub_titlerr.Auth.Routes.Table.{Access, for_public, for_user, for_admin, Route}

abbrev route : Text → Text → Access → Route
route method pattern access = record { method = method; pattern = pattern; access = access }

abbrev get : Text → Access → Route
get pattern access = route (codes "GET") pattern access

abbrev post : Text → Access → Route
post pattern access = route (codes "POST") pattern access

abbrev put : Text → Access → Route
put pattern access = route (codes "PUT") pattern access

abbrev delete : Text → Access → Route
delete pattern access = route (codes "DELETE") pattern access

abbrev pub base_routes : List Route
base_routes =
    get (codes "/healthz") for_public
    ∷ get (codes "/api/auth-mode") for_public
    ∷ post (codes "/api/login") for_public
    ∷ post (codes "/api/setup") for_public
    ∷ get (codes "/review") for_public
    ∷ get (codes "/review/*") for_public
    ∷ post (codes "/api/webhook/sonarr") for_public
    ∷ post (codes "/api/webhook/radarr") for_public
    ∷ get (codes "/") for_user
    ∷ get (codes "/index.html") for_user
    ∷ get (codes "/shared") for_user
    ∷ get (codes "/api/audio") for_user
    ∷ get (codes "/api/episodes") for_user
    ∷ get (codes "/api/shows") for_user
    ∷ get (codes "/api/episode") for_user
    ∷ post (codes "/api/decide") for_user
    ∷ get (codes "/api/shared") for_user
    ∷ post (codes "/api/shared") for_user
    ∷ post (codes "/api/apply") for_user
    ∷ get (codes "/api/requests") for_user
    ∷ get (codes "/api/schedule") for_user
    ∷ get (codes "/api/settings") for_user
    ∷ get (codes "/api/settings/schema") for_user
    ∷ get (codes "/api/status") for_user
    ∷ get (codes "/api/glossary") for_user
    ∷ post (codes "/api/glossary") for_user
    ∷ get (codes "/api/me") for_user
    ∷ put (codes "/api/me/password") for_user
    ∷ post (codes "/api/logout") for_user
    ∷ post (codes "/api/glossary/wiki-test") for_admin
    ∷ post (codes "/api/requests") for_admin
    ∷ put (codes "/api/schedule") for_admin
    ∷ put (codes "/api/settings") for_admin
    ∷ post (codes "/api/settings/reset") for_admin
    ∷ post (codes "/api/settings/test") for_admin
    ∷ post (codes "/api/system/restart") for_admin
    ∷ get (codes "/api/apikey") for_admin
    ∷ post (codes "/api/apikey/reset") for_admin
    ∷ get (codes "/api/users") for_admin
    ∷ post (codes "/api/users") for_admin
    ∷ put (codes "/api/users/*") for_admin
    ∷ delete (codes "/api/users/*") for_admin
    ∷ []
