-- ===== src/Core/Redact/Examples.antt =====
-- Redaction at work.
use worklane.Base.{◌≡◌, refl, ◌+◌, length}
use worklane.Base.Text.{codes}
use worklane.Core.Redact.{
  redact_credentials, redact_userinfo, redact_query_credentials, userinfo_loop, query_loop,
}
use worklane.Core.Redact.Fuel.{redact-enough}

hides_password :
    redact_credentials (codes "connect postgres://bob:pw@db/x?sslpassword=s3&a=b failed")
    ≡ codes "connect postgres://***@db/x?sslpassword=***&a=b failed"
unfolding redact_credentials
hides_password = refl

keeps_path :
    redact_credentials (codes "get https://h/path@v2?usersig=1")
    ≡ codes "get https://h/path@v2?usersig=1"
unfolding redact_credentials
keeps_path = refl

redact-enough_example :
    (userinfo_loop (length (codes "sig=1") + 4) (codes "sig=1") ≡ redact_userinfo (codes "sig=1"))
    × (query_loop (length (codes "sig=1") + 4) (codes "sig=1")
        ≡ redact_query_credentials (codes "sig=1"))
redact-enough_example = redact-enough (codes "sig=1") 4
