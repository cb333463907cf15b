-- ===== src/Catalog/Engine.antt =====
-- `CATALOG` of crates/console-server/src/history/catalog.rs: the engine's series, in the order of the
-- source.
use muser_console.Base.{codes, none, some, List, [], ◌∷◌}
use muser_console.Float.{Decimal}
use muser_console.Catalog.Kind.{gauge, counter}
use muser_console.Catalog.Source
use muser_console.Catalog.Series.{Series, prom, snap, transfer_last_series, transfers_active}

abbrev one : Decimal
one = record { digits = 1; exponent = 0 }

abbrev millionth : Decimal
millionth = record { digits = 1; exponent = 6 }

abbrev transfers_active_series : Series
transfers_active_series = record {
  name = codes "transfers_active";
  kind = gauge;
  source = Source.snapshot;
  unit = codes "transfers";
  extraction = transfers_active;
  honesty_path = some (codes "transfers");
}

unfoldable pub catalog : List Series
catalog =
    prom (codes "decode_tok_s") gauge (codes "tok/s") (codes "completion_traffic_tok_s_10s") none
    ∷ prom (codes "request_decode_tok_s") gauge (codes "tok/s") (codes "muser_request_decode_tok_s")
        none
    ∷ prom (codes "queue_depth") gauge (codes "requests") (codes "muser_queue_depth") none
    ∷ prom (codes "overload_rejections_total") counter (codes "requests")
        (codes "muser_overload_rejections_total") none
    ∷ prom (codes "completion_tokens_total") counter (codes "tokens")
        (codes "muser_completion_tokens_total") none
    ∷ prom (codes "ttft_ms_p50") gauge (codes "ms") (codes "muser_ttft_milliseconds")
        (some (codes "0.50"))
    ∷ prom (codes "ttft_ms_p95") gauge (codes "ms") (codes "muser_ttft_milliseconds")
        (some (codes "0.95"))
    ∷ prom (codes "itl_ms_p50") gauge (codes "ms") (codes "muser_itl_milliseconds")
        (some (codes "0.50"))
    ∷ prom (codes "itl_ms_p95") gauge (codes "ms") (codes "muser_itl_milliseconds")
        (some (codes "0.95"))
    ∷ prom (codes "dflash_accept_rate") gauge (codes "ratio")
        (codes "muser_dflash_acceptance_ratio") none
    ∷ snap (codes "requests_per_s") gauge (codes "req/s") (codes "wire.requests_per_s")
        (codes "wire.requests_per_s")
    ∷ snap (codes "wire_ingress_gbps") gauge (codes "Gb/s") (codes "wire.ingress_gbps")
        (codes "wire.ingress_gbps")
    ∷ snap (codes "dflash_drafted_total") counter (codes "tokens")
        (codes "specdec.cumulative_drafted") (codes "specdec")
    ∷ snap (codes "dflash_accepted_total") counter (codes "tokens")
        (codes "specdec.cumulative_accepted") (codes "specdec")
    ∷ snap (codes "dflash_ane_route_failures_total") counter (codes "attempts")
        (codes "specdec.ane_route_failures") (codes "specdec")
    ∷ snap (codes "dflash_metal_route_failures_total") counter (codes "attempts")
        (codes "specdec.metal_route_failures") (codes "specdec")
    ∷ snap (codes "remote_fallbacks_total") counter (codes "requests") (codes "_remote.fallbacks")
        (codes "_remote")
    ∷ transfers_active_series
    ∷ transfer_last_series (codes "transfer_last_bytes_total") (codes "bytes") (codes "bytes_total")
        one
    ∷ transfer_last_series (codes "transfer_last_throughput_gbps") (codes "Gb/s")
        (codes "throughput_gbps") one
    ∷ transfer_last_series (codes "transfer_last_hidden_pct") (codes "ratio") (codes "hidden_pct")
        one
    ∷ transfer_last_series (codes "transfer_last_control_ms") (codes "ms") (codes "_control_ns")
        millionth
    ∷ transfer_last_series (codes "transfer_last_accept_ms") (codes "ms") (codes "_accept_ns")
        millionth
    ∷ snap (codes "disagg_prefills_total") counter (codes "prefills")
        (codes "economics.disagg_prefills") (codes "economics.counters")
    ∷ snap (codes "disagg_bytes_installed_total") counter (codes "bytes")
        (codes "economics.disagg_bytes_installed") (codes "economics.counters")
    ∷ []
