-- ===== src/Gateway/Relayed.antt =====
-- mlx-gateway/server.mjs against dashboard/src/proxy.js: the metrics at the end of a stream.
use swiftlm_platform.Base.{List, ◌++◌, Text, codes}
use swiftlm_platform.Gateway.{JobRecord}
use swiftlm_platform.Gateway.Handlers.{Json}

-- The two lines of the event.
abbrev pub metrics_lines : Json → JobRecord → Text
metrics_lines k r = codes "event: mlx-metrics\ndata: " ++ k.record_text r
