-- ===== src/Route/Raw/Laws.antt =====
-- src/service.rs: the exchanges of a raw request and the rows it logs for them.
use kou_router.Prelude.{none, List}
use kou_router.Repository.{Repository}
use kou_router.Prelude.{none}
use kou_router.Route.Raw.{
  raw_matching, proxy_raw_to_provider, raw_proxied, raw_finished, raw_finished, raw_proxied,
  proxy_raw_to_provider, raw_matching,
}
