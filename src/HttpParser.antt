-- ===== src/HttpParser.antt =====
-- src/extends/small_http_parser: URLs, requests and responses.
pub mod UrlCode
pub mod Map
pub mod RespParser
pub mod ReqFormater
pub mod Tests
