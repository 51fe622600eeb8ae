-- ===== src/Lib.antt =====
-- A model of dealer, an HTTP API gateway in Go. A request passes the client-address and request-id
-- middlewares, is routed by host, path and method to a service, runs through the service's plugins
-- and is proxied to one of the service's origins. The configuration is read from a YAML file, which
-- is polled: an edit that is valid replaces the routes, the plugins and the probers.
--
-- The parts, by file:
--   Config/*        gateway/internal/config: Types (types.go), HostName, Parse and Hosts (parse.go:
--                   hostPattern, Parse, Load, Hosts), Watcher (watcher.go: NewWatcher, pollOnce)
--   Http/*          what the handlers use of net/http: Header, Request, and Writer, in which the
--                   writers of response_headers.go and metrics.go are layers on the server's
--   Plugin/*        gateway/internal/plugin: Contract (plugin.go), Values (the conversions of YAML
--                   values), AddHeader, SizeLimit, HttpLog, JwtAuth, Cors, RateLimit
--                   (rate_limiting.go, and the counting of ratelimit_sugardb.go), SugarDb (the
--                   rest of that file), ResponseHeaders, Registry
--   ClientIp        gateway/internal/clientip/clientip.go
--   Tracing         gateway/internal/tracing/requestid.go; Otel is otel.go
--   Router          gateway/internal/router/router.go
--   Proxy/*         gateway/internal/proxy: Origin (origin.go), LoadBalancer (loadbalancer.go, and
--                   the checks of NewReverseProxy), ReverseProxy (proxy.go; Exchange is one
--                   exchange with an origin), Retry (retry.go),
--                   Health (health.go)
--   Gateway/*       gateway/gateway.go: Options (Options and their defaults), Assembly (buildMux),
--                   Generations (the hosts, the hot reload, Close), Pipeline (the handler of a running
--                   gateway, from the middlewares to the load balancers), Startup (New),
--                   Flushing (the access logs), Reloading (a running gateway whose file is edited)
--   Metrics         gateway/internal/metrics/metrics.go: Wrap; Answers says what a handler does with
--                   its writer
--   Tlscert         cmd/dealer/internal/tlscert/reloader.go
--   Acmecert        cmd/dealer/internal/acmecert/acmecert.go
--   Command/*       cmd/dealer/main.go: Environment (the variables and the parsers of strconv),
--                   Settings (main up to gateway.New, buildTLSConfig), Servers (the servers, the
--                   root mux), Serving (from the start of the listeners on), Shutdown (the end of
--                   main), Info (infoHandler and config/info.go)
--   Loadtest/Jwtgen loadtest/jwtgen/main.go: the token that load tests send
--   Loadtest/Stubs  loadtest/stubs/main.go: the origins that load tests run against
--   Base/*          the results of fallible code, 64-bit integers, texts and list lemmas
-- The children of a module hold what is proved of it; those named Examples hold concrete runs.
--
-- How the code is modelled. A method that changes its receiver returns the new one; a method under a
-- mutex is one step. An error is the `err` of a Result. A time is a number of nanoseconds since Go's
-- zero time, a Duration and an int are integers with the wrap-around of 64 bits written out
-- (Base/Int64.antt). A handler is a function of the request and of an environment, which has the
-- response writer and the state that the plugins keep between requests. A Go map is an association
-- list, and a loop over one takes the order of the list.
--
-- A goroutine with a ticker is a loop over the events that its select receives (Base/Ticker.antt); it
-- ends with the cancelled context, and a panic of time.NewTicker, or of mux.Handle, is none.
--
-- Bounds. Loops over lists are recursion on the list. The choice of an origin recurses on the rounds
-- that are left, as many as there are origins; a retried round trip on the attempts that are left;
-- a decimal number on twenty digits, which are enough for 64 bits.
--
-- Parameters: the YAML decoder, time.ParseDuration, url.Parse, net/netip, net.SplitHostPort,
-- jwt.Parse, encoding/json, base64 and HMAC, crypto/rand, math/rand, the embedded SugarDB, the HTTP
-- transport and client, the file system, and float64, which is a record of operations.
--
-- Not modelled: OpenTelemetry, the Prometheus registry, the embedded database,
-- http.ServeMux's matching, httputil's reverse proxy and the ACME client, which are libraries; the
-- listeners and signals of cmd/dealer/main.go, of which the outcome is given, and the listeners of
-- loadtest/stubs. In a hot reload, three things are left out: a panic of buildMux or of a new prober,
-- which ends the process; a tick of the log flusher that is pending when its context is cancelled;
-- and requests that are still in flight on the plugins that are replaced.
pub mod Base
pub mod Config
pub mod Http
pub mod Acmecert
pub mod Command
pub mod Loadtest
pub mod Metrics
pub mod Plugin
pub mod ClientIp
pub mod Tracing
pub mod Router
pub mod Tlscert
pub mod Gateway
pub mod Proxy
