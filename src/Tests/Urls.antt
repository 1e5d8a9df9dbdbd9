-- ===== src/Tests/Urls.antt =====
-- Concrete URLs, paths and forms, for the theorems on src/smcp/url-helpers.c.
use smcp.Prelude.Bytes.{codes}
use smcp.Url.Parse.{url_parse}
use smcp.Url.Parse.Bounds.{IsParsed, url_parse-IsParsed}

-- `a b/c`

url_parse-IsParsed_example :
    IsParsed (codes "coap://u:p@[::1]:5683/a?b=c") (url_parse (codes "coap://u:p@[::1]:5683/a?b=c"))
url_parse-IsParsed_example = url_parse-IsParsed (codes "coap://u:p@[::1]:5683/a?b=c")
