-- ===== src/Http/Pages.antt =====
-- wzq_http/http.cpp: the texts that the server sends.
use cpp_study.Base.{ℕ, ◌++◌, ltb, if◌then◌else◌, length}
use cpp_study.Base.Exec.{Exec, done, fault}
use cpp_study.Base.Chars.{codes, decimal}
use cpp_study.Ini.{Text}

-- BUFFER_SIZE
abbrev pub buffer_size : ℕ
buffer_size = 1024

-- header_html before and behind its "%d".
abbrev pub header_start : Text
header_start =
    codes "HTTP/1.0 200 OK\r\nServer: Phone-Test/1.0\r\n"
    ++ (codes "Content-Type: text/html;charset=UTF-8\r\nContent-Length: ")

abbrev pub header_end : Text
header_end = codes "\r\n\r\n"

-- html of DealNewConnect.
abbrev pub connect_html : Text
connect_html =
    codes "<!doctype html>\r\n               <html>\r\n                        "
    ++ (codes "\t<head>\r\n                     \t\t<meta charset=UTF-8>\r\n   "
        ++ (codes "\t\t<title>test</title>\r\n    \t</head>\r\n                    "
            ++ (codes "\t<body>\r\n                     \t\tit  a  test  hhh hhh\r\n   "
                ++ (codes "\t</body>\r\n                   </html>\r\n                      "))))

-- default_html and result_fmt of DealRecv.
abbrev pub default_html : Text
default_html =
    codes "<!doctype html>\r\n<html>\r\n<head>\r\n"
    ++ (codes "<meta http-equiv=\"content-type\" content=\"text/html; charset=UTF-8\">\r\n"
        ++ (codes "<title>phone number query</title>\r\n</head>\r\n<body>\r\n"
            ++ (codes "<h1>phone number query</h1>\r\nphone number information\r\n"
                ++ (codes "<form action=msisdn method=get><p>"
                    ++ (codes "msisdn:head<input type=text name=head size=12 />"
                        ++ (codes
                              "time before(minutes)<input type=text name=before size=12 value=1 />"
                            ++ (codes "size<input type=text name=size size=12 value=25 /></p>"
                                ++ (codes
                                      "<p><input type=submit value=submit /></p>\r\n</form><br/><br/>"
                                    ++ (codes
                                        "<a href=post_pdp>post pdp imformation</a><br/><br/><br/></body>\r\n</html>\r\n")))))))))

abbrev pub result_fmt : Text
result_fmt =
    codes "<result>\r\n<table border=\"1\">\r\n<tr>\r\n<th>msisdn</td>\r\n"
    ++ (codes "<th>imsi</td>\r\n<th>imei</td>\r\n</tr>\r\n<tr>\r\n<td>18712345678</td>\r\n"
        ++ (codes "<td>324567890123</td>\r\n<td>6543217890</td>\r\n</tr>\r\n<tr>\r\n"
            ++ (codes "<td>18787976558</td>\r\n<td>666667890123</td>\r\n<td>8655431789</td>\r\n"
                ++ (codes "</tr>\r\n</table>\r\n</result>\r\n"))))

abbrev pub hello_text : Text
hello_text = codes "hello .this is server!"

-- `sprintf(buffer, header_html, strlen(html)); strcat(buffer, html);`
unfoldable pub page : Text → Text
page html = header_start ++ (decimal (length html) ++ (header_end ++ html))

-- What is in the buffer, with its 0, is within BUFFER_SIZE; then it is written.
unfoldable pub send_buffer : Text → Exec Text
send_buffer t = if ltb (length t) buffer_size then done t else fault

-- DealNewConnect, for which Run has a call that is commented out.
unfoldable pub deal_new_connect : Exec Text
unfolding page send_buffer
deal_new_connect = send_buffer (page connect_html)
