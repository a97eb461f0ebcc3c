-- ===== src/Tests/Shape.antt =====
-- The shape of the answer to a registration.
use overworld_ops.Base.{◌≡◌, true, refl}
use overworld_ops.Api.Http.{serve}
use overworld_ops.Api.Routes.{dispatch}
use overworld_ops.Api.Shape.{fits_body}
use overworld_ops.Api.Shape.Dispatch.{dispatch-Fits}
use overworld_ops.Tests.Samples.{calm, world, config, register_request}

dispatch-Fits_example :
    fits_body
      (serve (dispatch config register_request) calm world).0.body
      (serve (dispatch config register_request) calm world).0.status
    ≡ true
dispatch-Fits_example = dispatch-Fits config register_request calm world (λ path. refl)
